-- ===== src/Order/Http.antt =====
-- The chain that an HTTP request of the order service passes (order/internal/app/app.go).
mod Tests
use rocket_factory.Prelude.{
  ℕ, zero, suc, String, ◌≡◌, ◌≢◌, refl, Bool, Bool-cases, true, false, inl, inr, Option, some,
  str_eq, if◌then◌else◌, Result, ok, err, panic, UuidCodec, arith,
}
use rocket_factory.Prelude.Action.{Action}
use rocket_factory.Session.{Context, auth_middleware, header_token}
use rocket_factory.Session.Travel.{Admits, auth_middleware-Admits}
use rocket_factory.Platform.Http.{rate_limit, after_allow, trace_id_middleware}

module _ {W : Type 0} (trace_id : Context → String) (set_header : String → String → W → W) where
  -- What a request has gone through before it is authenticated.
  abbrev pub before_auth : Context → W → W
  before_auth ctx w =
      if str_eq (trace_id ctx) "" then w else set_header "X-Trace-ID" (trace_id ctx) w

  traced :
      {E A : Type 0} (ctx : Context) (next : Action E W A) (w : W)
      → trace_id_middleware trace_id set_header ctx next w ≡ next (before_auth ctx w)
  unfolding trace_id_middleware
  traced ctx next w = elim (Bool-cases (str_eq (trace_id ctx) "")) [
    | inl none_set ↦ rw none_set refl
    | inr set ↦ rw set refl
  ]

not_zero : {F : Type 0} (n : ℕ) → ◌≡◌ {A = Result F ℕ} (ok (suc n)) (ok 0) → ⊥
not_zero n h = let same : suc n ≡ 0 = cc in absurd (omega (arith, same))

module _ (codec : UuidCodec) {E F W A : Type 0} (limited refused : E)
    (allow : String → Action F W ℕ) (trace_id : Context → String)
    (set_header : String → String → W → W) (whoami : ℕ → Action E W (ℕ × ℕ)) where
  -- The handler that initHTTPServer builds around the router, without the metrics of otelhttp.
  unfoldable pub http_handler : Context → String → String → (Context → Action E W A) → Action E W A
  http_handler ctx path auth_header router = rate_limit limited allow path (
      trace_id_middleware trace_id set_header ctx
        (auth_middleware codec refused whoami ctx auth_header router))

  -- A request that is answered was not over the limit, and its bearer token is a session that IAM
  -- confirmed, with the user for whom the router ran: also where the limiter is down, nobody gets past
  -- the authentication.
  pub http_handler-Admits :
      (ctx : Context) (path auth_header : String) (router : Context → Action E W A) (w : W) {a : A}
      {w' : W}
      → http_handler ctx path auth_header router w ≡ (ok a, w')
      → ((allow path w).0 ≢ ok 0)
        × Admits codec refused whoami
            (header_token codec auth_header)
            ctx
            router
            (before_auth trace_id set_header ctx (allow path w).1)
            a
            w'
  unfolding http_handler rate_limit
  http_handler-Admits ctx path auth_header router w {a} {w'} h = passed (allow path w) h
    where
      passed :
          (q : Result F ℕ × W)
          → after_allow limited allow
              (trace_id_middleware trace_id set_header ctx
                (auth_middleware codec refused whoami ctx auth_header router))
              q
            ≡ (ok a, w')
          → (q.0 ≢ ok 0)
            × Admits codec refused whoami
                (header_token codec auth_header)
                ctx
                router
                (before_auth trace_id set_header ctx q.1)
                a
                w'
      passed (ok zero, v) e = cc
      passed (panic, v) e = cc
      passed (ok (suc n), v) e = (
        λ same. absurd (not_zero n same),
        auth_middleware-Admits codec refused whoami ctx auth_header router
            (before_auth trace_id set_header ctx v)
            (rw
              (traced trace_id set_header ctx
                (auth_middleware codec refused whoami ctx auth_header router) v)
              at e),
      )
      passed (err f, v) e = (
        λ same. cc,
        auth_middleware-Admits codec refused whoami ctx auth_header router
            (before_auth trace_id set_header ctx v)
            (rw
              (traced trace_id set_header ctx
                (auth_middleware codec refused whoami ctx auth_header router) v)
              at e),
      )
