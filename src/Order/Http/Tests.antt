-- ===== src/Order/Http/Tests.antt =====
-- The theorem on the chain of a request at a concrete one.
use rocket_factory.Prelude.{
  ℕ, String, ◌≡◌, ◌≢◌, refl, Option, none, some, ◌==◌, if◌then◌else◌, ok, err,
}
use rocket_factory.Prelude.Unary.{unary}
use rocket_factory.Prelude.Action.{Action}
use rocket_factory.Session.{Context, auth_middleware, header_token}
use rocket_factory.Session.Travel.{Admits}
use rocket_factory.Platform.Http.{rate_limit, trace_id_middleware}
use rocket_factory.Order.Http.{http_handler, before_auth, http_handler-Admits}

abbrev nobody : Context
nobody = record { user_uuid = none; session_uuid = none }

-- The world is how many requests were asked about; the limiter is down from the start.
abbrev down : String → Action ℕ ℕ ℕ
down path n = (err 1, n)

abbrev iam : ℕ → Action ℕ ℕ (ℕ × ℕ)
iam s n = if s == 3 then (ok (5, 3), n) else (err 404, n)

abbrev untraced : Context → String
untraced ctx = ""

abbrev unset : String → String → ℕ → ℕ
unset k v n = n

abbrev whose : Context → Action ℕ ℕ (Option ℕ)
whose ctx n = (ok ctx.user_uuid, n)

http_run :
    http_handler unary 429 401 down untraced unset iam nobody "/api" "Bearer ||||" whose 0
    ≡ (ok (some 5), 0)
unfolding http_handler rate_limit trace_id_middleware auth_middleware
http_run = refl

http_handler-Admits_example :
    ((down "/api" 0).0 ≢ ok 0)
    × Admits unary 401 iam
        (header_token unary "Bearer ||||")
        nobody
        whose
        (before_auth untraced unset nobody (down "/api" 0).1)
        (some 5)
        0
http_handler-Admits_example =
    http_handler-Admits unary 429 401 down untraced unset iam nobody "/api" "Bearer ||||" whose 0
      http_run
