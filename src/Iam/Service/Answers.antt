-- ===== src/Iam/Service/Answers.antt =====
-- What Whoami may answer after any sequence of calls (iam/internal/service/iam/whoami.go).
use rocket_factory.Prelude.{
  ℕ, ◌≡◌, refl, sym, ap, subst, false, inl, inr, ◌⊎◌, Option, none, some, Result, ok, err, panic,
  UuidCodec,
}
use rocket_factory.Prelude.Int.{ℤ}
use rocket_factory.Iam.Model.{Error, User, Session, session_not_found, other}
use rocket_factory.Iam.Users.{Users, get_by_uuid, scan_user, user_record_to_model}
use rocket_factory.Iam.Sessions.{
  Redis, RedisError, redis_nil, redis_failed, get, models_of, get_session_key,
}
use rocket_factory.Iam.Sessions.Storage.{models_of_missing, models_of_stored}
use rocket_factory.Iam.Service.{Bcrypt, Moment, whoami}
use rocket_factory.Iam.Service.Runs.{IsConsistent, Reach, Reach-IsConsistent}

-- An answer names the session that was asked for and a user whom GetUser finds, with the login that
-- the session has; a refusal is that of an unknown session or a failure of Redis.
abbrev pub Known : Users → ℕ → Result Error (User × Session) → Type 0
Known users s (ok (u, session)) =
    (known : User) × ((get_by_uuid false u.uuid users).0 ≡ ok known)
    × (known.login ≡ u.login)
    × (session.uuid ≡ s)
    × (session.user_uuid ≡ u.uuid)
    × (session.login ≡ u.login)
Known users s (err e) = (e ≡ session_not_found) ⊎ (e ≡ other)
Known users s panic = ⊥

module _ (codec : UuidCodec) {R : Type 0} (redis : Redis R) (bcrypt : Bcrypt) (ttl : ℤ) where
  get-Known :
      (now : ℤ) (fault : Option RedisError) (s : ℕ) (w : Users × R)
      → IsConsistent codec redis w
      → Known w.0 s (get codec redis now fault s w.1).0
  unfolding get get_by_uuid scan_user user_record_to_model
  get-Known now (some redis_nil) s w c = inl refl
  get-Known now (some redis_failed) s w c = inr refl
  get-Known now none s w c = elim (c.owned now s) [
    | inl gone ↦
        let refused : models_of codec (redis.hgetall now (get_session_key codec s) w.1)
            ≡ err session_not_found =
          rw gone (models_of_missing codec) in
        subst (Known w.0 s) (sym refused) (inl refl)
    | inr (u, there, who, name, which) ↦
        subst (Known w.0 s)
          (sym (
            models_of_stored codec (redis.hgetall now (get_session_key codec s) w.1) s u.uuid which
              who))
          (user_record_to_model u, ap scan_user there, sym name, refl, refl, refl)
  ]

  -- After any sequence of registrations, logins with new identifiers and logouts, however each ended,
  -- Whoami never panics: it answers with the session that was asked for and a user who is in the table
  -- under that identifier and login, or with session-not-found, or with a failure of Redis.
  pub whoami-Known :
      (w v : Users × R)
      → Reach codec redis bcrypt ttl w v
      → IsConsistent codec redis w
      → (m : Moment) (s : ℕ) → Known v.0 s (whoami codec bcrypt redis ttl m s v).0
  unfolding whoami
  whoami-Known w v reached c m s =
      get-Known m.now m.get_fault s v (Reach-IsConsistent codec redis bcrypt ttl w v reached c)
