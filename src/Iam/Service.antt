-- ===== src/Iam/Service.antt =====
-- The IAM service (iam/internal/service/iam). A call has the users and the sessions, and a moment:
-- what the clock, the source of randomness and the faults of the databases are while it runs.
pub mod Login
pub mod Answers
pub mod Runs
pub mod Registration
use Prim.Native.String.{len}
use rocket_factory.Prelude.{
  ℕ, String, ◌≡◌, Bool, true, false, Option, none, some, str_eq, ◌||◌, if◌then◌else◌, ltb, Result,
  ok, err, panic, UuidCodec,
}
use rocket_factory.Prelude.Int.{ℤ}
use rocket_factory.Prelude.Action.{Action, lift, pure, inside, outside, ◌>>=◌, ◌>>◌}
use rocket_factory.Iam.Model.{
  Error, User, Session, UserRegisterInput, UserLoginInput, invalid_credentials, weak_password,
  empty_credential, other,
}
use rocket_factory.Iam.Users.{Users, create, get_by_login, get_by_uuid}
use rocket_factory.Iam.Sessions
use rocket_factory.Iam.Sessions.{Redis, RedisError}

-- golang.org/x/crypto/bcrypt. A salt is drawn for each hash; a password may be refused (it is too
-- long), and a hash matches the password that it was made from.
pub record Bcrypt : Type 0 where
  pub generate : ℕ → String → Option String
  pub matches : String → String → Bool
  pub matches-generate :
      (salt : ℕ) (password hash : String)
      → generate salt password ≡ some hash
      → matches hash password ≡ true

-- What surrounds one call: two readings of the clock, a new UUID, a salt, what a TIMESTAMP column keeps
-- of an instant, and which commands fail.
pub record Moment : Type 0 where
  pub now : ℤ
  pub later : ℤ
  pub fresh : ℕ
  pub salt : ℕ
  pub timestamp : ℤ → ℤ
  pub users_fault : Bool
  pub hset_fault : Option RedisError
  pub expire_fault : Option RedisError
  pub get_fault : Option RedisError
  pub del_fault : Option RedisError

-- validateData; `len` counts bytes.
unfoldable pub validate_data : String → String → Result Error (Unit {0})
validate_data login password =
    if str_eq login "" || str_eq password ""
    then err empty_credential
    else if ltb (len password) 8
    then err weak_password
    else ok tt

abbrev pub hashed : Option String → Result Error String
hashed none = err other
hashed (some hash) = ok hash

-- The user that Register makes.
abbrev pub registered : Moment → String → String → User
registered m login hash = record {
  uuid = m.fresh;
  login = login;
  password_hash = hash;
  created_at = m.now;
  updated_at = none;
}

-- Login's answer to any error of GetByLogin.
abbrev pub or_invalid : {A : Type 0} → Result Error A → Result Error A
or_invalid (ok a) = ok a
or_invalid (err _) = err invalid_credentials
or_invalid panic = panic

abbrev pub attempt : {W A : Type 0} → Action Error W A → Action Error W A
attempt m w = let (r, w') = m w in (or_invalid r, w')

abbrev pub require : Bool → Error → Result Error (Unit {0})
require true e = ok tt
require false e = err e

-- Whether the credentials of a login are there.
abbrev pub given : String → String → Result Error (Unit {0})
given login password = if str_eq login "" || str_eq password "" then err empty_credential else ok tt

module _ (codec : UuidCodec) (bcrypt : Bcrypt) {R : Type 0} (redis : Redis R)
    (session_ttl : ℤ) where
  -- Register
  unfoldable pub register : Moment → UserRegisterInput → Action Error (Users × R) User
  unfolding validate_data
  register m input = do
    lift (validate_data input.login input.password)
    hash ← lift (hashed (bcrypt.generate m.salt input.password))
    inside (create m.users_fault m.timestamp (registered m input.login hash))
    pure (registered m input.login hash)

  -- The first part of Login: the user with the login, if the password is right.
  abbrev pub authenticate : Moment → UserLoginInput → Action Error (Users × R) User
  authenticate m input = do
    lift (given input.login input.password)
    user ← inside (attempt (get_by_login m.users_fault input.login))
    lift (require (bcrypt.matches user.password_hash input.password) invalid_credentials)
    pure user

  -- Login
  unfoldable pub login : Moment → UserLoginInput → Action Error (Users × R) ℕ
  login m input = do
    user ← authenticate m input
    outside (
        Sessions.set codec redis m.now m.later m.hset_fault m.expire_fault m.fresh user session_ttl)
    pure m.fresh

  -- Logout
  unfoldable pub logout : Moment → ℕ → Action Error (Users × R) (Unit {0})
  logout m session_uuid = outside (Sessions.delete codec redis m.del_fault session_uuid)

  -- Whoami
  unfoldable pub whoami : Moment → ℕ → Action Error (Users × R) (User × Session)
  whoami m session_uuid = outside (Sessions.get codec redis m.now m.get_fault session_uuid)

  -- GetUser
  unfoldable pub get_user : Moment → ℕ → Action Error (Users × R) User
  get_user m user_uuid = inside (get_by_uuid m.users_fault user_uuid)
