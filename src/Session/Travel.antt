-- ===== src/Session/Travel.antt =====
-- A session on its way from one service to the next
-- (platform/pkg/middleware/kafka/session.go, order/internal/interceptor/auth.go, inventory/internal/interceptor/auth.go).
use rocket_factory.Prelude.{
  ℕ, String, ◌≡◌, refl, Bool-cases, inl, inr, Option, none, some, [], ◌==◌, if◌then◌else◌, Result,
  ok, err, panic, UuidCodec, nil_uuid, to_string_nonempty,
}
use rocket_factory.Prelude.Action.{Action}
use rocket_factory.Prelude.Grpc.{Metadata}
use rocket_factory.Session.{
  Context, with_user_uuid, with_session_uuid, session_token_key, session_forwarder,
  producer_session_headers, consumer_session, first_value, append_session, header_of,
  metadata_token, header_token, auth_middleware, after_whoami, with_token,
}

module _ (codec : UuidCodec) where
  -- The context of a handler whose message was sent with the given session.
  abbrev pub received : Context → Option ℕ → Context
  received ctx none = ctx
  received ctx (some s) = if s == nil_uuid then ctx else with_session_uuid ctx s

  received_header :
      (ctx : Context) (o : Option ℕ)
      → consumer_session codec ctx (header_of codec o) ≡ received ctx o
  unfolding consumer_session
  received_header ctx none = refl
  received_header ctx (some s) = elim (Bool-cases (s == nil_uuid)) [
    | inl e ↦ rw e refl
    | inr e ↦ rw (e, to_string_nonempty codec s, codec.parse-to_string s) refl
  ]

  -- The handler of a message has the session of the context in which the message was sent; a message
  -- that was sent without a session, or with the nil one, leaves the handler's context alone.
  pub consumer_session-producer_session_headers :
      (ctx sender : Context)
      → consumer_session codec ctx (producer_session_headers codec sender)
        ≡ received ctx sender.session_uuid
  unfolding producer_session_headers
  consumer_session-producer_session_headers ctx sender = received_header ctx sender.session_uuid

  module _ {M : Type 0} (metadata : Metadata M) where
    forwarded :
        (o : Option ℕ) (md : M)
        → metadata.get session_token_key md ≡ []
        → first_value codec (metadata.get session_token_key (append_session codec metadata o md))
          ≡ o
    forwarded none md free = rw free refl
    forwarded (some s) md free =
        rw (metadata.get-append session_token_key (codec.to_string s) md, free)
          (codec.parse-to_string s)

    -- The token that a callee reads from the metadata of a call is the session of the caller's context,
    -- where the metadata had none before.
    pub metadata_token-session_forwarder :
        (ctx : Context) (md : M)
        → metadata.get session_token_key md ≡ []
        → metadata_token codec metadata (some (session_forwarder codec metadata ctx md))
          ≡ ctx.session_uuid
    unfolding session_forwarder
    metadata_token-session_forwarder ctx md free = forwarded ctx.session_uuid md free

  module _ {E W A : Type 0} (refused : E) (whoami : ℕ → Action E W (ℕ × ℕ)) where
    -- A call went through: its token was a session that IAM confirmed, and the handler ran with the
    -- user and the session that IAM named.
    abbrev pub Admits : Option ℕ → Context → (Context → Action E W A) → W → A → W → Type 0
    Admits token ctx handler w a w' =
        (s : ℕ) × (u : ℕ) × (s' : ℕ) × (token ≡ some s)
        × ((whoami s w).0 ≡ ok (u, s'))
        × (handler (with_session_uuid (with_user_uuid ctx u) s') (whoami s w).1 ≡ (ok a, w'))

    after_whoami-eq-ok :
        (ctx : Context) (handler : Context → Action E W A) (q : Result E (ℕ × ℕ) × W) {a : A}
        {w' : W}
        → after_whoami codec refused whoami ctx handler q ≡ (ok a, w')
        → (u : ℕ) × (s : ℕ) × (q.0 ≡ ok (u, s))
          × (handler (with_session_uuid (with_user_uuid ctx u) s) q.1 ≡ (ok a, w'))
    after_whoami-eq-ok ctx handler (ok (u, s), w) h = (u, s, refl, h)
    after_whoami-eq-ok ctx handler (err e, w) h = cc
    after_whoami-eq-ok ctx handler (panic, w) h = cc

    with_token-eq-ok :
        (ctx : Context) (handler : Context → Action E W A) (token : Option ℕ) (w : W) {a : A}
        {w' : W}
        → with_token codec refused whoami ctx handler token w ≡ (ok a, w')
        → Admits token ctx handler w a w'
    with_token-eq-ok ctx handler none w h = cc
    with_token-eq-ok ctx handler (some s) w h =
        let (u, s', confirmed, ran) = after_whoami-eq-ok ctx handler (whoami s w) h in
        (s, u, s', refl, confirmed, ran)

    -- A request that the order service's middleware lets through had a bearer token that IAM confirmed
    -- as a session, and its handler ran with the user and the session that IAM named.
    pub auth_middleware-Admits :
        (ctx : Context) (auth_header : String) (handler : Context → Action E W A) (w : W) {a : A}
        {w' : W}
        → auth_middleware codec refused whoami ctx auth_header handler w ≡ (ok a, w')
        → Admits (header_token codec auth_header) ctx handler w a w'
    unfolding auth_middleware
    auth_middleware-Admits ctx auth_header handler w =
        with_token-eq-ok ctx handler (header_token codec auth_header) w
