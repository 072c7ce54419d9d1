-- ===== src/Inventory/Clients.antt =====
-- The IAM client of the inventory (inventory/internal/client/grpc/iam/v1/client.go), over the
-- generated stub.
use rocket_factory.Prelude.{ℕ, String, Option, none, some, Result, ok, err, panic, UuidCodec}
use rocket_factory.Prelude.Action.{Action}
use rocket_factory.Prelude.Grpc.{CallError, status, not_a_status, unauthenticated, invalid_argument}
use rocket_factory.Inventory.Errors
use rocket_factory.Inventory.Errors.{Error, internal_error}

-- mapErrors
unfoldable pub iam_error : CallError → Error
iam_error (status unauthenticated) = Errors.unauthenticated
iam_error (status invalid_argument) = Errors.unauthenticated
iam_error (status c) = internal_error
iam_error not_a_status = internal_error

module _ (codec : UuidCodec) where
  -- What `uuid.MustParse` makes of the two identifiers of an answer.
  abbrev parsed_answer : {X : Type 0} → Option ℕ → Option ℕ → X → Result Error (ℕ × ℕ) × X
  parsed_answer none s x = (panic, x)
  parsed_answer (some u) none x = (panic, x)
  parsed_answer (some u) (some s) x = (ok (u, s), x)

  abbrev read_answer :
      {X : Type 0} → Result CallError (String × String) × X → Result Error (ℕ × ℕ) × X
  read_answer (ok answer, x) = parsed_answer (codec.parse answer.0) (codec.parse answer.1) x
  read_answer (err e, x) = (err (iam_error e), x)
  read_answer (panic, x) = (panic, x)

  -- Whoami; the stub answers with the user's and the session's identifiers.
  unfoldable pub whoami :
      {X : Type 0} → (String → Action CallError X (String × String)) → ℕ → Action Error X (ℕ × ℕ)
  unfolding iam_error
  whoami stub session_uuid x = read_answer (stub (codec.to_string session_uuid) x)
