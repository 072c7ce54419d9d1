-- ===== src/Iam/Access.antt =====
-- The IAM service behind the clients and the checks of the other services (iam/internal/api/auth/v1,
-- order/internal/middleware/auth.go, inventory/internal/interceptor/auth.go).
pub mod Guards
use Prim.Native.String
use Prim.Native.String.{slice, len}
use text.Mathlib.Text.{starts_with}
use text.Mathlib.TextPositions.{slice-append_right, starts_with-append, len-append}
use text.Mathlib.TextLemmas.{append-eq-nil_iff}
use rocket_factory.Prelude.{
  ℕ, String, ◌≡◌, refl, sym, ap, subst, ◌∙◌, Bool, true, false, Bool-cases, inl, inr, Option, none,
  some, [], str_eq, eq_iff, ◌==◌, ◌||◌, not, if◌then◌else◌, arith, Result, ok, err, panic,
  UuidCodec, to_string_nonempty,
}
use rocket_factory.Prelude.Int.{ℤ, ◌+ℤ◌, ltb_ℤ}
use rocket_factory.Prelude.Action.{Action, continue, pure}
use rocket_factory.Prelude.Grpc.{CallError, status, Metadata}
use rocket_factory.Order.Errors.{Error as OrderError, unauthorized, internal_error}
use rocket_factory.Order.Clients as OrderClients
use rocket_factory.Inventory.Errors.{Error as InventoryError}
use rocket_factory.Inventory.Clients as InventoryClients
use rocket_factory.Session.{
  Context, with_user_uuid, with_session_uuid, session_token_key, session_forwarder, auth,
  auth_middleware, header_token, metadata_token,
}
use rocket_factory.Session.Travel.{metadata_token-session_forwarder}
use rocket_factory.Iam.Model.{Error, User, Session, UserLoginInput, session_not_found}
use rocket_factory.Iam.Users.{Users}
use rocket_factory.Iam.Sessions.{Redis}
use rocket_factory.Iam.Sessions.Storage.{Absent}
use rocket_factory.Iam.Service
use rocket_factory.Iam.Service.{Bcrypt, Moment}
use rocket_factory.Iam.Service.Login.{Authentic, whoami-login, whoami-logout, answer_at}
use rocket_factory.Iam.Api
use rocket_factory.Iam.Api.{SessionProto, UserProto, error_code, intercept}

module _ (codec : UuidCodec) where
  not_blank : (s : ℕ) → str_eq (Prim.Native.String.◌++◌ "Bearer " (codec.to_string s)) "" ≡ false
  not_blank s =
      let header = Prim.Native.String.◌++◌ "Bearer " (codec.to_string s) in
      elim (Bool-cases (str_eq header "")) [
        | inr e ↦ e
        | inl e ↦
            let blank : header ≡ "" = ground (arith, e, eq_iff header "") in
            let prefix : len "Bearer " ≡ 0 = ap len ((append-eq-nil_iff).0 blank).0 in
            absurd (omega (arith, prefix))
      ]

  -- The header that a client sends for a session is read as that session.
  header_token-Bearer :
      (s : ℕ) → header_token codec (Prim.Native.String.◌++◌ "Bearer " (codec.to_string s)) ≡ some s
  header_token-Bearer s =
      let header = Prim.Native.String.◌++◌ "Bearer " (codec.to_string s) in
      let token : slice header 7 (len header) ≡ codec.to_string s =
        ap (slice header 7) (len-append "Bearer " (codec.to_string s))
        ∙ slice-append_right "Bearer " (codec.to_string s) in
      rw
        (
          not_blank s,
          starts_with-append "Bearer " (codec.to_string s),
          token,
          to_string_nonempty codec s,
          codec.parse-to_string s,
        )
        refl

  module _ (bcrypt : Bcrypt) {R : Type 0} (redis : Redis R) (ttl : ℤ) where
    abbrev identifiers :
        {X : Type 0}
        → Result CallError (SessionProto × UserProto) × X
        → Result CallError (String × String) × X
    identifiers (ok (session, user), x) = (ok (user.uuid, session.uuid), x)
    identifiers (err e, x) = (err e, x)
    identifiers (panic, x) = (panic, x)

    -- The IAM service as the stub of the clients: its handler behind its interceptor.
    abbrev pub whoami_stub : Moment → String → Action CallError (Users × R) (String × String)
    whoami_stub m text w = identifiers (intercept (Api.whoami codec bcrypt redis ttl m text w))

    -- The answer of the stub for an answer of the service.
    abbrev printed :
        {W : Type 0} → Result Error (User × Session) × W → Result CallError (String × String) × W
    printed (ok (u, session), w) = (ok (codec.to_string u.uuid, codec.to_string session.uuid), w)
    printed (err e, w) = (err (status (error_code e)), w)
    printed (panic, w) = (panic, w)

    -- The identifiers that a client makes of an answer of Whoami, with the client's error for one.
    abbrev pub seen :
        {E W : Type 0} → (CallError → E) → Result Error (User × Session) × W → Result E (ℕ × ℕ) × W
    seen f (ok (u, session), w) = (ok (u.uuid, session.uuid), w)
    seen f (err e, w) = (err (f (status (error_code e))), w)
    seen f (panic, w) = (panic, w)

    stub_printed :
        (m : Moment) (s : ℕ) (w : Users × R)
        → whoami_stub m (codec.to_string s) w
          ≡ printed (Service.whoami codec bcrypt redis ttl m s w)
    unfolding Api.whoami Api.compose_session_res Api.compose_user_res
    stub_printed m s w =
        rw (to_string_nonempty codec s, codec.parse-to_string s)
          (of_answer (Service.whoami codec bcrypt redis ttl m s w))
      where
        of_answer :
            (q : Result Error (User × Session) × (Users × R))
            → identifiers (
                intercept (
                  continue q.0
                    (λ found.
                      pure
                        (Api.compose_session_res codec found.1, Api.compose_user_res codec found.0))
                    q.1))
              ≡ printed q
        of_answer (ok (u, session), v) = refl
        of_answer (err e, v) = refl
        of_answer (panic, v) = refl

    order_reads :
        (stub : String → Action CallError (Users × R) (String × String)) (s : ℕ) (w : Users × R)
        (q : Result Error (User × Session) × (Users × R))
        → stub (codec.to_string s) w ≡ printed q
        → OrderClients.whoami codec stub s w ≡ seen OrderClients.iam_error q
    unfolding OrderClients.whoami
    order_reads stub s w (ok (u, session), v) h =
        rw (h, codec.parse-to_string u.uuid, codec.parse-to_string session.uuid) refl
    order_reads stub s w (err e, v) h = rw h refl
    order_reads stub s w (panic, v) h = rw h refl

    -- The client of the order service, over the IAM service, gives the identifiers of the user and the
    -- session that Whoami found, and the client's error for the status of any error.
    pub order_whoami-seen :
        (m : Moment) (s : ℕ) (w : Users × R)
        → OrderClients.whoami codec (whoami_stub m) s w
          ≡ seen OrderClients.iam_error (Service.whoami codec bcrypt redis ttl m s w)
    order_whoami-seen m s w = order_reads (whoami_stub m) s w _ (stub_printed m s w)

    inventory_reads :
        (stub : String → Action CallError (Users × R) (String × String)) (s : ℕ) (w : Users × R)
        (q : Result Error (User × Session) × (Users × R))
        → stub (codec.to_string s) w ≡ printed q
        → InventoryClients.whoami codec stub s w ≡ seen InventoryClients.iam_error q
    unfolding InventoryClients.whoami
    inventory_reads stub s w (ok (u, session), v) h =
        rw (h, codec.parse-to_string u.uuid, codec.parse-to_string session.uuid) refl
    inventory_reads stub s w (err e, v) h = rw h refl
    inventory_reads stub s w (panic, v) h = rw h refl

    -- So does the client of the inventory.
    pub inventory_whoami-seen :
        (m : Moment) (s : ℕ) (w : Users × R)
        → InventoryClients.whoami codec (whoami_stub m) s w
          ≡ seen InventoryClients.iam_error (Service.whoami codec bcrypt redis ttl m s w)
    inventory_whoami-seen m s w = inventory_reads (whoami_stub m) s w _ (stub_printed m s w)
