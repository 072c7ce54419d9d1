-- ===== src/Iam/Tests.antt =====
-- The theorems on the IAM service at concrete users, sessions and moments.
pub mod Memory
mod Doors
use rocket_factory.Prelude.{
  ℕ, String, ◌≡◌, refl, ap, Bool, true, false, Option, none, some, List, [], ◌∷◌, inl, str_eq, ◌==◌,
  if◌then◌else◌, Result, ok, err,
}
use Prim.Native.Nat.{◌-◌, ◌%◌}
use rocket_factory.Prelude.Int.{ℤ, pos, negsuc, ◌+ℤ◌, ltb_ℤ, wrap64}
use rocket_factory.Prelude.Unary.{unary}
use rocket_factory.Prelude.Action.{Action, fail_if}
use rocket_factory.Iam.Model.{
  Error, User, Session, UserLoginInput, UserRegisterInput, other, session_not_found,
}
use rocket_factory.Iam.Users.{UserRecord, Users, get_by_login, scan_user, create}
use rocket_factory.Iam.Sessions.{
  Redis, RedisError, redis_failed, set, delete, get, zero_view, get_session_key,
}
use rocket_factory.Iam.Sessions.Storage.{Absent, without_hash, session_of}
use rocket_factory.Iam.Service.{
  Bcrypt, Moment, authenticate, register, login, logout, whoami, registered,
}
use rocket_factory.Iam.Service.Login.{
  Authentic, answer_at, whoami-login, whoami-logout, whoami_after_failed_expiry,
}
use rocket_factory.Iam.Service.Registration.{admission, login-register}
use rocket_factory.Iam.Service.Runs.{IsConsistent, Reach, stay, then_step, logs_in, registers}
use rocket_factory.Iam.Service.Answers.{Known, whoami-Known}
use rocket_factory.Iam.Tests.Memory.{Keyspace, memory, plain}

-- A column that drops what is finer than four units.
abbrev whole : ℤ → ℤ
whole (pos n) = pos (n - n % 4)
whole (negsuc n) = negsuc n

-- A moment without faults.
abbrev pub at : ℤ → ℕ → Moment
at t u = record {
  now = t;
  later = t;
  fresh = u;
  salt = 0;
  timestamp = whole;
  users_fault = false;
  hset_fault = none;
  expire_fault = none;
  get_fault = none;
  del_fault = none;
}

abbrev pub ann : UserRegisterInput
ann = record { login = "ann"; password = "correct horse" }

abbrev pub ann_again : UserLoginInput
ann_again = record { login = "ann"; password = "correct horse" }

abbrev pub nothing : Users × Keyspace
nothing = ([], λ _. none)

abbrev pub hour : ℤ
hour = pos 3600

-- The world after the registration, and after the login that follows.
abbrev pub with_ann : Users × Keyspace
with_ann = (register unary plain memory hour (at (pos 10) 1) ann nothing).1

abbrev pub signed_in : Users × Keyspace
signed_in = (login unary plain memory hour (at (pos 20) 7) ann_again with_ann).1

unfoldable pub machinery : Unit {0}
unfolding register login logout whoami create get_by_login scan_user get set delete ◌+ℤ◌ wrap64
machinery = tt

register_run :
    register unary plain memory hour (at (pos 10) 1) ann nothing
    ≡ (ok (registered (at (pos 10) 1) "ann" "correct horse"), with_ann)
unfolding machinery register
register_run = refl

pub login_run : login unary plain memory hour (at (pos 20) 7) ann_again with_ann ≡ (ok 7, signed_in)
unfolding machinery login register scan_user
login_run = refl

pub absent : Absent unary memory 7 with_ann.1
unfolding register create
absent t = refl

login-register_example :
    ((login unary plain memory hour
        (at (pos 20) 7)
        (record { login = "ann"; password = "wrong" })
        with_ann).0
      ≡ admission unary plain memory hour
          (at (pos 20) 7)
          (registered (at (pos 10) 1) "ann" "correct horse")
          "wrong")
    × (admission unary plain memory hour
          (at (pos 20) 7)
          (registered (at (pos 10) 1) "ann" "correct horse")
          "correct horse"
        ≡ ok 7)
login-register_example =
    login-register unary plain memory hour (at (pos 10) 1) (at (pos 20) 7) ann nothing with_ann
      register_run refl refl refl "wrong"

whoami-login_example :
    (u : User) × Authentic unary plain memory hour (at (pos 20) 7) ann_again with_ann.0 u
    × (whoami unary plain memory hour (at (pos 30) 8) 7 signed_in
        ≡ (answer_at unary plain memory hour (pos 30) (at (pos 20) 7) u, signed_in))
whoami-login_example =
    whoami-login unary plain memory hour (at (pos 20) 7) (at (pos 30) 8) ann_again with_ann
      signed_in login_run absent refl

abbrev pub signed_out : Users × Keyspace
signed_out = (logout unary plain memory hour (at (pos 40) 9) 7 signed_in).1

pub logout_run : logout unary plain memory hour (at (pos 40) 9) 7 signed_in ≡ (ok tt, signed_out)
unfolding logout delete
logout_run = refl

-- EXPIREAT fails.
abbrev half : Moment
half = record (at (pos 20) 7) { expire_fault = some redis_failed }

abbrev known_ann : User
known_ann = record (registered (at (pos 10) 1) "ann" "correct horse") { created_at = pos 8 }

authenticated : (authenticate unary plain memory hour half ann_again with_ann).0 ≡ ok known_ann
unfolding machinery scan_user
authenticated = refl

whoami_after_failed_expiry_example :
    ((login unary plain memory hour half ann_again with_ann).0 ≡ err other)
    × ((whoami unary plain memory hour
          (at (pos 999999) 9)
          7
          (login unary plain memory hour half ann_again with_ann).1).0
        ≡ ok (without_hash known_ann, session_of 7 known_ann (pos 20) (pos 20 +ℤ hour)))
whoami_after_failed_expiry_example =
    whoami_after_failed_expiry unary plain memory hour half (at (pos 999999) 9) ann_again with_ann
      redis_failed known_ann authenticated refl refl absent refl

consistent : IsConsistent unary memory nothing
consistent = record { unique = tt; owned = λ t s. inl refl }

whoami-Known_example :
    Known signed_in.0 7 (whoami unary plain memory hour (at (pos 30) 8) 7 signed_in).0
whoami-Known_example =
    whoami-Known unary memory plain hour nothing signed_in
      (then_step nothing with_ann signed_in
        (then_step nothing nothing with_ann (stay nothing) (registers (at (pos 10) 1) ann nothing))
        (logs_in (at (pos 20) 7) ann_again with_ann absent))
      consistent (at (pos 30) 8) 7
