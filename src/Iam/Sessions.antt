-- ===== src/Iam/Sessions.antt =====
-- The session repository (iam/internal/repository/session, converter/session.go,
-- redis_view/session.go) over Redis.
pub mod Storage
use Prim.Native.String
use rocket_factory.Prelude.{
  ℕ, String, ◌≡◌, Bool, true, false, Option, none, some, str_eq, if◌then◌else◌, Result, ok, err,
  panic, UuidCodec, ◌>>=◌,
}
use rocket_factory.Prelude.Int.{ℤ, pos, ◌+ℤ◌, ltb_ℤ, wrap64}
use rocket_factory.Prelude.Action
use rocket_factory.Prelude.Action.{Action, fail_if}
use rocket_factory.Iam.Model.{Error, User, Session, session_not_found, other}

-- SessionRedisView, the fields of a hash; a field with `omitempty` may be missing.
pub record SessionRedisView : Type 0 where
  pub user_uuid : String
  pub user_login : String
  pub user_created_at_ns : ℤ
  pub user_updated_at_ns : Option ℤ
  pub session_uuid : String
  pub session_created_at_ns : ℤ
  pub session_updated_at_ns : Option ℤ
  pub session_expires_at_ns : ℤ

-- What Scan leaves in the view for an empty hash: its zero value.
abbrev pub zero_view : SessionRedisView
zero_view = record {
  user_uuid = "";
  user_login = "";
  user_created_at_ns = pos 0;
  user_updated_at_ns = none;
  session_uuid = "";
  session_created_at_ns = pos 0;
  session_updated_at_ns = none;
  session_expires_at_ns = pos 0;
}

-- Redis and its client (github.com/redis/go-redis), with the commands that the repository sends: HSET
-- of the fields of a view, HGETALL read into a view at an instant, EXPIREAT (in whole seconds, to
-- which `second` rounds) and DEL. A hash that is not there reads as the zero view.
pub record Redis (R : Type 0) : Type 0 where
  pub hset : String → SessionRedisView → R → R
  pub hgetall : ℤ → String → R → SessionRedisView
  pub expire_at : String → ℤ → R → R
  pub del : String → R → R
  pub second : ℤ → ℤ
  pub hgetall-del :
      (t : ℤ) (j k : String) (r : R)
      → hgetall t j (del k r) ≡ (if str_eq j k then zero_view else hgetall t j r)
  pub hgetall-hset_other :
      (t : ℤ) (j k : String) (v : SessionRedisView) (r : R)
      → str_eq j k ≡ false
      → hgetall t j (hset k v r) ≡ hgetall t j r
  pub hgetall-expire_at_other :
      (t : ℤ) (j k : String) (e : ℤ) (r : R)
      → str_eq j k ≡ false
      → hgetall t j (expire_at k e r) ≡ hgetall t j r
  -- A new hash has no time to live, and its fields are those that were written.
  pub hgetall-hset :
      (t : ℤ) (k : String) (v : SessionRedisView) (r : R)
      → ((t' : ℤ) → hgetall t' k r ≡ zero_view)
      → hgetall t k (hset k v r) ≡ v
  -- A key that was given an expiry reads as before until then, and as a missing key from then on.
  pub hgetall-expire_at :
      (t : ℤ) (k : String) (v : SessionRedisView) (e : ℤ) (r : R)
      → ((t' : ℤ) → hgetall t' k r ≡ zero_view)
      → hgetall t k (expire_at k e (hset k v r)) ≡ (if ltb_ℤ t (second e) then v else zero_view)

-- An error of the client: redis.Nil, or any other.
pub data RedisError : Type 0 where
  redis_nil redis_failed : RedisError

-- The error that the repository passes on as it is.
abbrev pub passed_on : Option RedisError → Option Error
passed_on none = none
passed_on (some _) = some other

abbrev pub unix_nano_of : Option ℤ → Option ℤ
unix_nano_of none = none
unix_nano_of (some t) = some (wrap64 t)

module _ (codec : UuidCodec) where
  -- UserModelToSessionView; `now` is the clock when it is called, UnixNano is an int64.
  unfoldable pub user_model_to_session_view : ℤ → ℕ → User → ℤ → SessionRedisView
  user_model_to_session_view now session_uuid user expired_at = record {
    user_uuid = codec.to_string user.uuid;
    user_login = user.login;
    user_created_at_ns = wrap64 user.created_at;
    user_updated_at_ns = unix_nano_of user.updated_at;
    session_uuid = codec.to_string session_uuid;
    session_created_at_ns = wrap64 now;
    session_updated_at_ns = none;
    session_expires_at_ns = wrap64 expired_at;
  }

  -- `uuid.MustParse`
  abbrev pub must_parse : Option ℕ → Result Error ℕ
  must_parse none = panic
  must_parse (some u) = ok u

  -- SessionViewToUserModel
  unfoldable pub session_view_to_user_model : SessionRedisView → Result Error User
  session_view_to_user_model view = do
    uuid ← must_parse (codec.parse view.user_uuid)
    ok (record {
      uuid = uuid;
      login = view.user_login;
      password_hash = "";
      created_at = view.user_created_at_ns;
      updated_at = view.user_updated_at_ns;
    })

  -- SessionViewToSessionModel
  unfoldable pub session_view_to_session_model : SessionRedisView → Result Error Session
  session_view_to_session_model view = do
    uuid ← must_parse (codec.parse view.session_uuid)
    user_uuid ← must_parse (codec.parse view.user_uuid)
    ok (record {
      uuid = uuid;
      user_uuid = user_uuid;
      login = view.user_login;
      created_at = view.session_created_at_ns;
      updated_at = view.session_updated_at_ns;
      expires_at = view.session_expires_at_ns;
    })

  -- SessionViewToModels
  unfoldable pub session_view_to_models : SessionRedisView → Result Error (User × Session)
  unfolding session_view_to_user_model session_view_to_session_model
  session_view_to_models view = do
    user ← session_view_to_user_model view
    session ← session_view_to_session_model view
    ok (user, session)

  -- getSessionKey
  unfoldable pub get_session_key : ℕ → String
  get_session_key session_uuid = Prim.Native.String.◌++◌ "session:" (codec.to_string session_uuid)

  -- The rest of Get, on the view that was read.
  abbrev pub models_of : SessionRedisView → Result Error (User × Session)
  unfolding session_view_to_models
  models_of view =
      if str_eq view.session_uuid "" then err session_not_found else session_view_to_models view

  abbrev pub get_with : Option RedisError → SessionRedisView → Result Error (User × Session)
  get_with (some redis_nil) view = err session_not_found
  get_with (some redis_failed) view = err other
  get_with none view = models_of view

  module _ {R : Type 0} (redis : Redis R) where
    abbrev pub put_view : String → SessionRedisView → Action Error R (Unit {0})
    put_view k v r = (ok tt, redis.hset k v r)

    abbrev pub put_expiry : String → ℤ → Action Error R (Unit {0})
    put_expiry k e r = (ok tt, redis.expire_at k e r)

    -- Set; `now` and `later` are the two readings of the clock, and the faults those of HSET and
    -- EXPIREAT. A command that fails has not been executed.
    unfoldable pub set :
        ℤ → ℤ → Option RedisError → Option RedisError → ℕ → User → ℤ → Action Error R (Unit {0})
    unfolding user_model_to_session_view get_session_key
    set now later hset_fault expire_fault session_uuid user ttl =
        let session_key = get_session_key session_uuid in
        let expires_at = now +ℤ ttl in
        Action.◌>>◌ (fail_if (passed_on hset_fault)) (
          Action.◌>>◌
            (put_view session_key (user_model_to_session_view later session_uuid user expires_at))
            (Action.◌>>◌ (fail_if (passed_on expire_fault)) (put_expiry session_key expires_at)))

    -- Delete
    unfoldable pub delete : Option RedisError → ℕ → Action Error R (Unit {0})
    unfolding get_session_key
    delete fault session_uuid =
        Action.◌>>◌ (fail_if (passed_on fault))
          (λ r. (ok tt, redis.del (get_session_key session_uuid) r))

    -- Get, at an instant.
    unfoldable pub get : ℤ → Option RedisError → ℕ → Action Error R (User × Session)
    unfolding get_session_key
    get now fault session_uuid r =
        (get_with fault (redis.hgetall now (get_session_key session_uuid) r), r)
