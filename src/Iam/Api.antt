-- ===== src/Iam/Api.antt =====
-- The gRPC handlers of the IAM service (iam/internal/api) and the mapping of its errors to statuses
-- (iam/internal/interceptor/error.go).
pub mod Registered
use rocket_factory.Prelude.{
  ℕ, String, Bool, true, false, Option, none, some, str_eq, if◌then◌else◌, Result, ok, err, panic,
  UuidCodec,
}
use rocket_factory.Prelude.Int.{ℤ}
use rocket_factory.Prelude.Action.{Action, lift, pure, ◌>>=◌, ◌>>◌}
use rocket_factory.Prelude.Grpc.{
  Code, CallError, status, not_found, already_exists, unauthenticated, invalid_argument, internal,
}
use rocket_factory.Iam.Model.{
  Error, User, Session, UserRegisterInput, UserLoginInput, user_not_found, user_already_exists,
  invalid_credentials, session_not_found, invalid_login, weak_password, empty_credential,
  empty_session_id, invalid_uuid, other,
}
use rocket_factory.Iam.Users.{Users}
use rocket_factory.Iam.Sessions.{Redis}
use rocket_factory.Iam.Service
use rocket_factory.Iam.Service.{Bcrypt, Moment}

-- The status of the error of a handler; `ErrorInterceptor`.
unfoldable pub error_code : Error → Code
error_code user_not_found = not_found
error_code user_already_exists = already_exists
error_code invalid_credentials = unauthenticated
error_code session_not_found = unauthenticated
error_code invalid_login = invalid_argument
error_code weak_password = invalid_argument
error_code empty_credential = invalid_argument
error_code empty_session_id = invalid_argument
error_code invalid_uuid = invalid_argument
error_code other = internal

-- A handler behind the interceptor.
abbrev pub intercept : {W A : Type 0} → Result Error A × W → Result CallError A × W
intercept (ok a, w) = (ok a, w)
intercept (err e, w) = (err (status (error_code e)), w)
intercept (panic, w) = (panic, w)

-- The messages; a message field that is not set is none, and its getters answer with zero values.
pub record LoginRequest : Type 0 where
  pub login : String
  pub password : String

pub record UserInfo : Type 0 where
  pub login : String

pub record UserRegistrationInfo : Type 0 where
  pub info : Option UserInfo
  pub password : String

pub record RegisterRequest : Type 0 where
  pub info : Option UserRegistrationInfo

pub record SessionProto : Type 0 where
  pub uuid : String
  pub created_at : ℤ
  pub updated_at : Option ℤ
  pub expires_at : ℤ

pub record UserProto : Type 0 where
  pub uuid : String
  pub login : String
  pub created_at : ℤ
  pub updated_at : Option ℤ

abbrev pub login_of : Option UserInfo → String
login_of none = ""
login_of (some info) = info.login

abbrev pub register_input : Option UserRegistrationInfo → UserRegisterInput
register_input none = record { login = ""; password = "" }
register_input (some r) = record { login = login_of r.info; password = r.password }

-- RegisterRequestToRegisterInput
unfoldable pub register_request_to_register_input : RegisterRequest → UserRegisterInput
register_request_to_register_input req = register_input req.info

-- LoginRequestToLoginInput
unfoldable pub login_request_to_login_input : LoginRequest → UserLoginInput
login_request_to_login_input req = record { login = req.login; password = req.password }

-- The result of `uuid.Parse` for the handlers.
abbrev pub parsed : Option ℕ → Result Error ℕ
parsed none = err invalid_uuid
parsed (some u) = ok u

module _ (codec : UuidCodec) where
  -- composeSessionRes
  unfoldable pub compose_session_res : Session → SessionProto
  compose_session_res session = record {
    uuid = codec.to_string session.uuid;
    created_at = session.created_at;
    updated_at = session.updated_at;
    expires_at = session.expires_at;
  }

  -- composeUserRes
  unfoldable pub compose_user_res : User → UserProto
  compose_user_res user = record {
    uuid = codec.to_string user.uuid;
    login = user.login;
    created_at = user.created_at;
    updated_at = user.updated_at;
  }

  -- The identifier of a session in a request.
  abbrev pub session_id : String → Result Error ℕ
  session_id text = if str_eq text "" then err empty_session_id else parsed (codec.parse text)

  module _ (bcrypt : Bcrypt) {R : Type 0} (redis : Redis R) (session_ttl : ℤ) where
    -- Login
    unfoldable pub login : Moment → LoginRequest → Action Error (Users × R) String
    unfolding login_request_to_login_input
    login m req = do
      session_uuid ←
          Service.login codec bcrypt redis session_ttl m (login_request_to_login_input req)
      pure (codec.to_string session_uuid)

    -- Logout
    unfoldable pub logout : Moment → String → Action Error (Users × R) (Unit {0})
    logout m text = do
      session_uuid ← lift (session_id text)
      Service.logout codec bcrypt redis session_ttl m session_uuid

    -- Whoami
    unfoldable pub whoami : Moment → String → Action Error (Users × R) (SessionProto × UserProto)
    unfolding compose_session_res compose_user_res
    whoami m text = do
      session_uuid ← lift (session_id text)
      found ← Service.whoami codec bcrypt redis session_ttl m session_uuid
      pure (compose_session_res found.1, compose_user_res found.0)

    -- GetUser
    unfoldable pub get_user : Moment → String → Action Error (Users × R) UserProto
    unfolding compose_user_res
    get_user m text = do
      user_uuid ← lift (parsed (codec.parse text))
      user ← Service.get_user codec bcrypt redis session_ttl m user_uuid
      pure (compose_user_res user)

    -- Register
    unfoldable pub register : Moment → RegisterRequest → Action Error (Users × R) String
    unfolding register_request_to_register_input
    register m req = do
      user ←
          Service.register codec bcrypt redis session_ttl m (register_request_to_register_input req)
      pure (codec.to_string user.uuid)
