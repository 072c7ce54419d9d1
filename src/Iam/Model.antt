-- ===== src/Iam/Model.antt =====
-- The models and errors of the IAM service (iam/internal/model, iam/internal/errors,
-- iam/internal/service/input).
use rocket_factory.Prelude.{ℕ, String, Option}
use rocket_factory.Prelude.Int.{ℤ}

-- The sentinels; `other` is an error with none of them in its chain.
pub data Error : Type 0 where
  user_not_found user_already_exists invalid_credentials session_not_found invalid_login : Error
  weak_password empty_credential empty_session_id invalid_uuid other : Error

-- model.User; an instant is its nanoseconds since 1970.
pub record User : Type 0 where
  pub uuid : ℕ
  pub login : String
  pub password_hash : String
  pub created_at : ℤ
  pub updated_at : Option ℤ

-- model.Session
pub record Session : Type 0 where
  pub uuid : ℕ
  pub user_uuid : ℕ
  pub login : String
  pub created_at : ℤ
  pub updated_at : Option ℤ
  pub expires_at : ℤ

-- input.UserRegisterInput
pub record UserRegisterInput : Type 0 where
  pub login : String
  pub password : String

-- input.UserLoginInput
pub record UserLoginInput : Type 0 where
  pub login : String
  pub password : String
