-- ===== src/Iam/Users.antt =====
-- The users repository (iam/internal/repository/user, record/user.go, converter/user.go) on the table
-- `users` with the keys that migrations/iam declares.
pub mod Rows
use rocket_factory.Prelude.{
  ℕ, String, Bool, true, false, Option, none, some, List, [], ◌∷◌, str_eq, ◌==◌, ◌||◌,
  if◌then◌else◌, Result, ok, err,
}
use rocket_factory.Prelude.Int.{ℤ}
use rocket_factory.Prelude.Action.{Action, fail_if, ◌>>◌}
use rocket_factory.Iam.Model.{Error, User, user_not_found, user_already_exists, other}

-- record.User; NULL is none.
pub record UserRecord : Type 0 where
  pub uuid : ℕ
  pub login : String
  pub password_hash : String
  pub created_at : ℤ
  pub updated_at : Option ℤ

-- UserRecordToModel
unfoldable pub user_record_to_model : UserRecord → User
user_record_to_model rec = record {
  uuid = rec.uuid;
  login = rec.login;
  password_hash = rec.password_hash;
  created_at = rec.created_at;
  updated_at = rec.updated_at;
}

-- UserModelToRecord
unfoldable pub user_model_to_record : User → UserRecord
user_model_to_record user = record {
  uuid = user.uuid;
  login = user.login;
  password_hash = user.password_hash;
  created_at = user.created_at;
  updated_at = user.updated_at;
}

-- The rows of `users`, the last inserted first.
abbrev pub Users : Type 0
Users = List UserRecord

-- `SELECT … WHERE …` of one row.
abbrev pub select_row : (UserRecord → Bool) → Users → Option UserRecord
select_row p [] = none
select_row p (r ∷ rs) = if p r then some r else select_row p rs

-- Whether the primary key or the UNIQUE login of a row is taken.
abbrev pub is_taken : UserRecord → Users → Bool
is_taken r [] = false
is_taken r (s ∷ rs) = (r.uuid == s.uuid || str_eq r.login s.login) || is_taken r rs

-- The row that an INSERT leaves, which writes NULL as updated_at. `timestamp` is what the column of the
-- type TIMESTAMP keeps of an instant: PostgreSQL drops what is finer than a microsecond, and the zone.
abbrev pub stored : (ℤ → ℤ) → UserRecord → UserRecord
stored timestamp r = record r { created_at = timestamp r.created_at; updated_at = none }

-- The query of Create: the INSERT; a violated key is the code 23505.
abbrev pub insert_user : (ℤ → ℤ) → UserRecord → Action Error Users (Unit {0})
insert_user timestamp r users =
    if is_taken r users
    then (err user_already_exists, users)
    else (ok tt, stored timestamp r ∷ users)

-- The error of a statement that the database could not execute.
abbrev pub failure : Bool → Option Error
failure true = some other
failure false = none

-- Create. A statement may fail otherwise too, which is the first argument of each query.
unfoldable pub create : Bool → (ℤ → ℤ) → User → Action Error Users (Unit {0})
unfolding user_model_to_record
create fault timestamp user = do
  fail_if (failure fault)
  insert_user timestamp (user_model_to_record user)

-- What Scan makes of the answer: pgx.ErrNoRows becomes ErrUserNotFound.
unfoldable pub scan_user : Option UserRecord → Result Error User
unfolding user_record_to_model
scan_user none = err user_not_found
scan_user (some rec) = ok (user_record_to_model rec)

-- GetByLogin
unfoldable pub get_by_login : Bool → String → Action Error Users User
get_by_login fault login = fail_if (failure fault) >> λ users.
    (scan_user (select_row (λ r. str_eq r.login login) users), users)

-- GetByUUID
unfoldable pub get_by_uuid : Bool → ℕ → Action Error Users User
get_by_uuid fault user_uuid = fail_if (failure fault) >> λ users.
    (scan_user (select_row (λ r. r.uuid == user_uuid) users), users)
