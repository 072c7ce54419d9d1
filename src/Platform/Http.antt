-- ===== src/Platform/Http.antt =====
-- The HTTP middlewares of the platform (platform/pkg/ratelimit/middleware.go,
-- platform/pkg/tracing/middleware.go).
use rocket_factory.Prelude.{ℕ, zero, suc, String, str_eq, if◌then◌else◌, Result, ok, err, panic}
use rocket_factory.Prelude.Action.{Action}
use rocket_factory.Session.{Context}

-- `limited` is the answer 429, and `allow` the limiter's Allow, which gives how many requests it allows
-- for a path, under the limit that the middleware was made with.
module _ {E F W A : Type 0} (limited : E) (allow : String → Action F W ℕ) where
  abbrev pub after_allow : Action E W A → Result F ℕ × W → Result E A × W
  after_allow next (err e, w) = next w
  after_allow next (ok zero, w) = (err limited, w)
  after_allow next (ok (suc n), w) = next w
  after_allow next (panic, w) = (panic, w)

  -- The handler of Middleware.
  unfoldable pub rate_limit : String → Action E W A → Action E W A
  rate_limit path next w = after_allow next (allow path w)

-- TraceIDMiddleware; `trace_id` is the text of the trace identifier of a context, and `set_header` writes
-- a header of the response.
unfoldable pub trace_id_middleware :
    {E W A : Type 0}
    → (Context → String)
    → (String → String → W → W)
    → Context
    → Action E W A
    → Action E W A
trace_id_middleware trace_id set_header ctx next w =
    if str_eq (trace_id ctx) "" then next w else next (set_header "X-Trace-ID" (trace_id ctx) w)
