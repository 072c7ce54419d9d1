-- ===== src/Prelude/Grpc.antt =====
-- The part of google.golang.org/grpc that the services see: status codes, and errors of calls.
use Prim.Native.String.{String}
use mathlib.Core.Path.{◌≡◌}
use mathlib.Core.List.{List, [], ◌∷◌, ◌++◌}

-- The canonical codes. An error never has the code OK.
pub data Code : Type 0 where
  canceled unknown invalid_argument deadline_exceeded not_found already_exists : Code
  resource_exhausted failed_precondition internal unavailable unauthenticated : Code

-- An error that a client stub returns: `status.FromError` gives its code, or refuses.
pub data CallError : Type 0 where
  status : Code → CallError
  not_a_status : CallError

-- The metadata of a call (google.golang.org/grpc/metadata): a key may have several values, and a
-- pair that a caller appends is the last one that the callee reads under its key.
pub record Metadata (M : Type 0) : Type 0 where
  pub get : String → M → List String
  pub append : String → String → M → M
  pub get-append :
      (key value : String) (md : M) → get key (append key value md) ≡ get key md ++ (value ∷ [])
