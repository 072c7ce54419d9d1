-- ===== src/Session/Tests.antt =====
-- The theorems on sessions at concrete contexts and headers.
use rocket_factory.Prelude.{
  ℕ, String, ◌≡◌, refl, Option, none, some, List, [], ◌∷◌, ok, err, ◌++◌, arith, str_eq, eq_iff,
  ◌==◌, if◌then◌else◌,
}
use rocket_factory.Prelude.Unary.{unary}
use rocket_factory.Prelude.Action.{Action}
use rocket_factory.Prelude.Grpc.{Metadata}
use rocket_factory.Session.{Context, auth_middleware}

abbrev nobody : Context
nobody = record { user_uuid = none; session_uuid = none }

abbrev signed_in : Context
signed_in = record { user_uuid = some 5; session_uuid = some 3 }

-- Metadata as pairs in the order in which they were appended.
abbrev pub Pairs : Type 0
Pairs = List (String × String)

abbrev pub values_of : String → Pairs → List String
values_of key [] = []
values_of key (kv ∷ md) =
    let rest = values_of key md in if str_eq kv.0 key then kv.1 ∷ rest else rest

pub values_of-append :
    (key value : String) (md : Pairs)
    → values_of key (md ++ ((key, value) ∷ [])) ≡ values_of key md ++ (value ∷ [])
values_of-append key value [] = ground (arith, eq_iff key key)
values_of-append key value (kv ∷ md) = ground (arith, values_of-append key value md)

abbrev pub pairs : Metadata Pairs
pairs = record {
  get = values_of;
  append = λ k v md. md ++ ((k, v) ∷ []);
  get-append = values_of-append;
}

abbrev pub trace : Pairs
trace = ("traceparent", "00") ∷ []

-- IAM knows the session 3 of the user 5; an error is a number.
abbrev iam : ℕ → Action ℕ (Unit {0}) (ℕ × ℕ)
iam s w = if s == 3 then (ok (5, 3), w) else (err 404, w)

abbrev whose : Context → Action ℕ (Unit {0}) (Option ℕ)
whose ctx w = (ok ctx.user_uuid, w)

abbrev metadata : Pairs
metadata = ("session-uuid", unary.to_string 3) ∷ []

auth_middleware_run :
    auth_middleware unary 401 iam nobody "Bearer ||||" whose tt ≡ (ok (some 5), tt)
unfolding auth_middleware
auth_middleware_run = refl
