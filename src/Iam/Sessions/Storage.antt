-- ===== src/Iam/Sessions/Storage.antt =====
-- What the session repository stores and finds (iam/internal/repository/session).
use text.Mathlib.TextLemmas.{append_cancel_left}
use rocket_factory.Prelude.{
  ℕ, ◌≡◌, refl, ◌∙◌, true, false, Bool-cases, inl, inr, Option, none, some, str_eq, eq_iff, arith,
  ◌==◌, ◌⊎◌, if◌then◌else◌, ok, err, UuidCodec, to_string_nonempty, to_string_inj,
}
use rocket_factory.Prelude.Int.{ℤ, ◌+ℤ◌, ltb_ℤ, wrap64}
use rocket_factory.Iam.Model.{User, Session, session_not_found}
use rocket_factory.Iam.Sessions.{
  SessionRedisView, zero_view, Redis, set, delete, get, get_session_key, user_model_to_session_view,
  models_of, RedisError, unix_nano_of,
}

-- A user as a session keeps it: without the hash of the password, and with instants in int64.
abbrev pub without_hash : User → User
without_hash u = record u {
  password_hash = "";
  created_at = wrap64 u.created_at;
  updated_at = unix_nano_of u.updated_at;
}

-- The session of a user that is opened at an instant and lasts until another.
abbrev pub session_of : ℕ → User → ℤ → ℤ → Session
session_of session_uuid u created_at expires_at = record {
  uuid = session_uuid;
  user_uuid = u.uuid;
  login = u.login;
  created_at = wrap64 created_at;
  updated_at = none;
  expires_at = wrap64 expires_at;
}

module _ (codec : UuidCodec) where
  key_self : (s : ℕ) → str_eq (get_session_key codec s) (get_session_key codec s) ≡ true
  key_self s = ground (arith, eq_iff (get_session_key codec s) (get_session_key codec s))

  -- Different sessions have different keys.
  pub key_other :
      (a b : ℕ)
      → (a == b) ≡ false
      → str_eq (get_session_key codec a) (get_session_key codec b) ≡ false
  unfolding get_session_key
  key_other a b ne =
      elim (Bool-cases (str_eq (get_session_key codec a) (get_session_key codec b))) [
        | inr e ↦ e
        | inl e ↦
            let same : get_session_key codec a ≡ get_session_key codec b =
              ground (arith, e, eq_iff (get_session_key codec a) (get_session_key codec b)) in
            let eq : a ≡ b = to_string_inj codec a b (append_cancel_left "session:" _ _ same) in
            ground (arith, eq)
      ]

  -- The view of a session is read back as the user and the session.
  pub models_of-view :
      (s : ℕ) (u : User) (now expires : ℤ)
      → models_of codec (user_model_to_session_view codec now s u expires)
        ≡ ok (without_hash u, session_of s u now expires)
  unfolding user_model_to_session_view models_of
  models_of-view s u now expires =
      rw (to_string_nonempty codec s, codec.parse-to_string u.uuid, codec.parse-to_string s) refl

  -- A hash that is not there is no session.
  pub models_of_missing : models_of codec zero_view ≡ err session_not_found
  unfolding models_of
  models_of_missing = refl

  -- What is read from a hash with the identifiers of a session and of a user.
  pub models_of_stored :
      (view : SessionRedisView) (s user : ℕ)
      → view.session_uuid ≡ codec.to_string s
      → view.user_uuid ≡ codec.to_string user
      → models_of codec view
        ≡ ok (
          record {
            uuid = user;
            login = view.user_login;
            password_hash = "";
            created_at = view.user_created_at_ns;
            updated_at = view.user_updated_at_ns;
          },
          record {
            uuid = s;
            user_uuid = user;
            login = view.user_login;
            created_at = view.session_created_at_ns;
            updated_at = view.session_updated_at_ns;
            expires_at = view.session_expires_at_ns;
          },
        )
  unfolding models_of
  models_of_stored view s user which who =
      rw
        (
          which,
          who,
          to_string_nonempty codec s,
          codec.parse-to_string user,
          codec.parse-to_string s,
        )
        refl

  module _ {R : Type 0} (redis : Redis R) where
    -- No hash stands under the key of a session, at any time.
    abbrev pub Absent : ℕ → R → Type 0
    Absent s r = (t : ℤ) → redis.hgetall t (get_session_key codec s) r ≡ zero_view

    -- A new session is found, as it was stored, until the second of its expiry, and not from then on.
    pub get-set :
        (now later : ℤ) (s : ℕ) (u : User) (ttl : ℤ) (r : R)
        → Absent s r
        → (t : ℤ)
        → (get codec redis t none s (set codec redis now later none none s u ttl r).1).0 ≡ (
            if ltb_ℤ t (redis.second (now +ℤ ttl))
            then ok (without_hash u, session_of s u later (now +ℤ ttl))
            else err session_not_found)
    unfolding get set models_of
    get-set now later s u ttl r absent t =
        let view = user_model_to_session_view codec later s u (now +ℤ ttl) in
        elim (Bool-cases (ltb_ℤ t (redis.second (now +ℤ ttl)))) [
          | inl before ↦
              rw
                (
                  redis.hgetall-expire_at t (get_session_key codec s) view (now +ℤ ttl) r absent,
                  before,
                )
                (models_of-view s u later (now +ℤ ttl))
          | inr after ↦
              rw
                (
                  redis.hgetall-expire_at t (get_session_key codec s) view (now +ℤ ttl) r absent,
                  after,
                )
                refl
        ]

    -- What the repository does with one session leaves every other as it was.
    pub set_other :
        (now later : ℤ) (h e : Option RedisError) (s : ℕ) (u : User) (ttl : ℤ) (r : R) (t : ℤ)
        (other : ℕ)
        → (other == s) ≡ false
        → redis.hgetall t (get_session_key codec other) (set codec redis now later h e s u ttl r).1
          ≡ redis.hgetall t (get_session_key codec other) r
    unfolding set
    set_other now later (some f) e s u ttl r t o ne = refl
    set_other now later none (some f) s u ttl r t o ne =
        redis.hgetall-hset_other t _ _ _ r (key_other o s ne)
    set_other now later none none s u ttl r t o ne =
        redis.hgetall-expire_at_other t _ _ _ _ (key_other o s ne)
        ∙ redis.hgetall-hset_other t _ _ _ r (key_other o s ne)

    -- After a delete there is nothing under the key, and every other key is as it was.
    pub hgetall-delete :
        (s : ℕ) (r : R) (t : ℤ) (other : ℕ)
        → redis.hgetall t (get_session_key codec other) (delete codec redis none s r).1
          ≡ (if other == s then zero_view else redis.hgetall t (get_session_key codec other) r)
    unfolding delete
    hgetall-delete s r t o = elim (Bool-cases (o == s)) [
      | inl same ↦
          let eq : o ≡ s = ground (arith, same) in
          rw
            (
              redis.hgetall-del t (get_session_key codec o) (get_session_key codec s) r,
              same,
              eq,
              key_self s,
            )
            refl
      | inr ne ↦
          rw
            (
              redis.hgetall-del t (get_session_key codec o) (get_session_key codec s) r,
              ne,
              key_other o s ne,
            )
            refl
    ]

    -- However the storing of a new session ends, its key then has no hash or that of the session.
    pub set_view :
        (now later : ℤ) (h e : Option RedisError) (s : ℕ) (u : User) (ttl : ℤ) (r : R)
        → Absent s r
        → (t : ℤ)
        → (redis.hgetall t (get_session_key codec s) (set codec redis now later h e s u ttl r).1
            ≡ zero_view)
          ⊎ (redis.hgetall t (get_session_key codec s) (set codec redis now later h e s u ttl r).1
              ≡ user_model_to_session_view codec later s u (now +ℤ ttl))
    unfolding set
    set_view now later (some f) e s u ttl r absent t = inl (absent t)
    set_view now later none (some f) s u ttl r absent t = inr (redis.hgetall-hset t _ _ r absent)
    set_view now later none none s u ttl r absent t =
        let view = user_model_to_session_view codec later s u (now +ℤ ttl) in
        let read = redis.hgetall-expire_at t (get_session_key codec s) view (now +ℤ ttl) r absent in
        elim (Bool-cases (ltb_ℤ t (redis.second (now +ℤ ttl)))) [
          | inl before ↦ inr (rw before at read)
          | inr after ↦ inl (rw after at read)
        ]
