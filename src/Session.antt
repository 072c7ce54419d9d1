-- ===== src/Session.antt =====
-- How a user's session travels between the services: the context (platform/pkg/auth), the outgoing
-- metadata (order/internal/interceptor/auth.go), the headers of Kafka messages
-- (platform/pkg/middleware/kafka/session.go), and the two checks on the way in
-- (inventory/internal/interceptor/auth.go, order/internal/middleware/auth.go).
pub mod Travel
pub mod Tests
use text.Mathlib.Text.{starts_with}
use Prim.Native.String.{slice, len}
use rocket_factory.Prelude.{
  ℕ, String, Bool, true, false, not, ◌||◌, ◌&&◌, Option, none, some, List, [], ◌∷◌, ◌++◌, str_eq,
  ◌==◌, if◌then◌else◌, Result, ok, err, panic, UuidCodec, nil_uuid,
}
use rocket_factory.Prelude.Action
use rocket_factory.Prelude.Action.{Action, raise}
use rocket_factory.Prelude.Grpc.{
  Metadata, Code, CallError, status, not_a_status, unauthenticated, invalid_argument,
}

-- The values that the services keep in a context.
pub record Context : Type 0 where
  pub user_uuid : Option ℕ
  pub session_uuid : Option ℕ

-- WithUserUUID
abbrev pub with_user_uuid : Context → ℕ → Context
with_user_uuid ctx u = record ctx { user_uuid = some u }

-- WithSessionUUID
abbrev pub with_session_uuid : Context → ℕ → Context
with_session_uuid ctx s = record ctx { session_uuid = some s }

-- UserUUIDFromContext
abbrev pub user_uuid_from_context : Context → Option ℕ
user_uuid_from_context ctx = ctx.user_uuid

-- SessionUUIDFromContext
abbrev pub session_uuid_from_context : Context → Option ℕ
session_uuid_from_context ctx = ctx.session_uuid

abbrev pub session_token_key : String
session_token_key = "session-uuid"

-- A header of a Kafka message, its value as text.
pub record Header : Type 0 where
  pub key : String
  pub value : String

module _ (codec : UuidCodec) where
  module _ {M : Type 0} (metadata : Metadata M) where
    abbrev pub append_session : Option ℕ → M → M
    append_session none md = md
    append_session (some s) md = metadata.append session_token_key (codec.to_string s) md

    -- SessionForwarder: the outgoing metadata of a call.
    unfoldable pub session_forwarder : Context → M → M
    session_forwarder ctx md = append_session (session_uuid_from_context ctx) md

  abbrev pub header_of : Option ℕ → List Header
  header_of none = []
  header_of (some s) =
      if s == nil_uuid
      then []
      else record { key = session_token_key; value = codec.to_string s } ∷ []

  -- ProducerSessionHeaders
  unfoldable pub producer_session_headers : Context → List Header
  producer_session_headers ctx = header_of (session_uuid_from_context ctx)

  abbrev pub with_parsed : Context → Option ℕ → Context
  with_parsed ctx none = ctx
  with_parsed ctx (some s) = with_session_uuid ctx s

  -- The loop of ConsumerSession: the context of the handler.
  unfoldable pub consumer_session : Context → List Header → Context
  consumer_session ctx [] = ctx
  consumer_session ctx (h ∷ hs) =
      let rest = consumer_session ctx hs in
      if str_eq h.key session_token_key && not (str_eq h.value "")
      then with_parsed ctx (codec.parse h.value)
      else rest

  abbrev pub first_value : List String → Option ℕ
  first_value [] = none
  first_value (v ∷ vs) = codec.parse v

  -- `md.Get(auth.SessionTokenKey)`, of which the first value is parsed.
  abbrev pub metadata_token : {M : Type 0} → Metadata M → Option M → Option ℕ
  metadata_token metadata none = none
  metadata_token metadata (some md) = first_value (metadata.get session_token_key md)

  abbrev pub header_token : String → Option ℕ
  header_token auth_header =
      if str_eq auth_header "" || not (starts_with auth_header "Bearer ")
      then none
      else (let token = slice auth_header 7 (len auth_header) in
          if str_eq token "" then none else codec.parse token)

  module _ {E W A : Type 0} (refused : E) (whoami : ℕ → Action E W (ℕ × ℕ)) where
    -- What both checks do with the answer of IAM: the handler has the user and the session in its
    -- context, and any error is a refusal.
    abbrev pub after_whoami :
        Context → (Context → Action E W A) → Result E (ℕ × ℕ) × W → Result E A × W
    after_whoami ctx handler (ok (u, s), w) = handler (with_session_uuid (with_user_uuid ctx u) s) w
    after_whoami ctx handler (err e, w) = (err refused, w)
    after_whoami ctx handler (panic, w) = (panic, w)

    abbrev pub with_token : Context → (Context → Action E W A) → Option ℕ → Action E W A
    with_token ctx handler none w = (err refused, w)
    with_token ctx handler (some s) w = after_whoami ctx handler (whoami s w)

    -- Auth, the interceptor of the inventory; none is a call without metadata.
    unfoldable pub auth :
        {M : Type 0} → Metadata M → Context → Option M → (Context → Action E W A) → Action E W A
    auth metadata ctx md handler = with_token ctx handler (metadata_token metadata md)

    -- AuthMiddleware of the order service; a missing header is the empty string.
    unfoldable pub auth_middleware : Context → String → (Context → Action E W A) → Action E W A
    auth_middleware ctx auth_header next = with_token ctx next (header_token auth_header)
