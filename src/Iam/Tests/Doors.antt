-- ===== src/Iam/Tests/Doors.antt =====
-- The theorems on logged-in callers of the other services at concrete calls.
use Prim.Native.String
use rocket_factory.Prelude.{ℕ, String, ◌≡◌, refl, Option, none, some, ok, err}
use rocket_factory.Prelude.Int.{pos, ◌+ℤ◌}
use rocket_factory.Prelude.Unary.{unary}
use rocket_factory.Prelude.Action.{Action}
use rocket_factory.Order.Errors.{unauthorized}
use rocket_factory.Order.Clients as OrderClients
use rocket_factory.Session.{Context, with_user_uuid, with_session_uuid, auth_middleware}
use rocket_factory.Iam.Model.{User}
use rocket_factory.Iam.Users.{Users}
use rocket_factory.Iam.Service.Login.{Authentic}
use rocket_factory.Iam.Api
use rocket_factory.Iam.Api.{RegisterRequest}
use rocket_factory.Iam.Api.Registered.{get_user-register}
use rocket_factory.Iam.Access.{whoami_stub}
use rocket_factory.Iam.Access.Guards.{let_in, auth_middleware-login, auth_middleware-logout}
use rocket_factory.Iam.Tests.{
  at, hour, ann_again, with_ann, signed_in, signed_out, login_run, logout_run, absent, nothing,
  machinery,
}
use rocket_factory.Iam.Tests.Memory.{Keyspace, memory, plain}

abbrev nobody : Context
nobody = record { user_uuid = none; session_uuid = none }

-- A handler that answers with the user of its context.
abbrev whose : {E : Type 0} → Context → Action E (Users × Keyspace) (Option ℕ)
whose ctx w = (ok ctx.user_uuid, w)

abbrev bearer : String
bearer = Prim.Native.String.◌++◌ "Bearer " (unary.to_string 7)

auth_middleware-login_example :
    (u : User) × Authentic unary plain memory hour (at (pos 20) 7) ann_again with_ann.0 u
    × (auth_middleware unary unauthorized
          (OrderClients.whoami unary (whoami_stub unary plain memory hour (at (pos 30) 8)))
          nobody
          bearer
          whose
          signed_in
        ≡ let_in unary plain memory hour unauthorized
            (pos 30)
            (pos 20 +ℤ hour)
            (with_session_uuid (with_user_uuid nobody u.uuid) 7)
            whose
            signed_in)
auth_middleware-login_example =
    auth_middleware-login unary plain memory hour (at (pos 20) 7) (at (pos 30) 8) ann_again with_ann
      signed_in login_run absent refl unauthorized nobody whose

auth_middleware-logout_example :
    auth_middleware unary unauthorized
      (OrderClients.whoami unary (whoami_stub unary plain memory hour (at (pos 50) 9)))
      nobody
      bearer
      whose
      signed_out
    ≡ (err unauthorized, signed_out)
auth_middleware-logout_example =
    auth_middleware-logout unary plain memory hour (at (pos 40) 9) (at (pos 50) 9) 7 signed_in
      signed_out logout_run refl unauthorized nobody whose

abbrev caller : Context
caller = record { user_uuid = some 1; session_uuid = some 7 }

abbrev ann_wants : RegisterRequest
ann_wants = record {
  info = some (record { info = some (record { login = "ann" }); password = "correct horse" });
}

register_api_run :
    Api.register unary plain memory hour (at (pos 10) 1) ann_wants nothing ≡ (ok "||", with_ann)
unfolding machinery Api.register Api.register_request_to_register_input
register_api_run = refl

get_user-register_example : Api.get_user unary plain memory hour (at (pos 11) 0) "||" with_ann ≡ (
  ok (record {
    uuid = "||";
    login = (Api.register_request_to_register_input ann_wants).login;
    created_at = pos 8;
    updated_at = none;
  }),
  with_ann,
)
get_user-register_example =
    get_user-register unary plain memory hour (at (pos 10) 1) (at (pos 11) 0) ann_wants nothing
      with_ann register_api_run refl
