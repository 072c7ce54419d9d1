-- ===== src/Iam/Api/Registered.antt =====
-- A registration over gRPC and the user that GetUser then gives (iam/internal/api/user/v1).
use rocket_factory.Prelude.{
  String, ◌≡◌, refl, sym, ap, ap₂, subst, ◌∙◌, true, false, none, ◌==◌, arith, ok, UuidCodec,
}
use rocket_factory.Prelude.Int.{ℤ}
use rocket_factory.Prelude.Action.{>>=-eq-ok}
use rocket_factory.Iam.Model.{User}
use rocket_factory.Iam.Users.{
  Users, create, is_taken, get_by_uuid, scan_user, user_model_to_record, user_record_to_model,
}
use rocket_factory.Iam.Sessions.{Redis}
use rocket_factory.Iam.Service
use rocket_factory.Iam.Service.{Bcrypt, Moment, registered}
use rocket_factory.Iam.Service.Registration.{register-eq-ok}
use rocket_factory.Iam.Api.{
  RegisterRequest, UserProto, register, get_user, register_request_to_register_input,
  compose_user_res,
}

get_by_uuid-create :
    (timestamp : ℤ → ℤ) (u : User) (users : Users)
    → is_taken (user_model_to_record u) users ≡ false
    → get_by_uuid false u.uuid (create false timestamp u users).1 ≡ (
      ok (record u { created_at = timestamp u.created_at; updated_at = none }),
      (create false timestamp u users).1,
    )
unfolding create get_by_uuid scan_user user_model_to_record user_record_to_model
get_by_uuid-create timestamp u users free =
    let self : (u.uuid == u.uuid) ≡ true = ground arith in rw (free, self) refl

module _ (codec : UuidCodec) (bcrypt : Bcrypt) {R : Type 0} (redis : Redis R) (ttl : ℤ) where
  abbrev shown : Moment → String → String → UserProto
  shown m login text = record {
    uuid = text;
    login = login;
    created_at = m.timestamp m.now;
    updated_at = none;
  }

  get_user-registered :
      (m m' : Moment) (login hash : String) (w : Users × R)
      → m'.users_fault ≡ false
      → is_taken (user_model_to_record (registered m login hash)) w.0 ≡ false
      → get_user codec bcrypt redis ttl m'
          (codec.to_string m.fresh)
          ((create false m.timestamp (registered m login hash) w.0).1, w.1)
        ≡ (
          ok (shown m login (codec.to_string m.fresh)),
          ((create false m.timestamp (registered m login hash) w.0).1, w.1),
        )
  unfolding get_user compose_user_res Service.get_user
  get_user-registered m m' login hash w steady free =
      rw
        (
          codec.parse-to_string m.fresh,
          steady,
          get_by_uuid-create m.timestamp (registered m login hash) w.0 free,
        )
        refl

  -- After a registration, GetUser on the identifier that was answered gives the user: with that
  -- identifier, the requested login, the time of the registration as a TIMESTAMP column keeps it and no
  -- update, where the database answers.
  pub get_user-register :
      (m m' : Moment) (req : RegisterRequest) (w w' : Users × R) {text : String}
      → register codec bcrypt redis ttl m req w ≡ (ok text, w')
      → m'.users_fault ≡ false
      → get_user codec bcrypt redis ttl m' text w'
        ≡ (ok (shown m (register_request_to_register_input req).login text), w')
  unfolding register
  get_user-register m m' req w w' {text} h steady =
      let input = register_request_to_register_input req in
      let (u, made, last) = >>=-eq-ok (Service.register codec bcrypt redis ttl m input) _ w w' h in
      let w₁ = (Service.register codec bcrypt redis ttl m input w).1 in
      let done = register-eq-ok codec bcrypt redis ttl m input w w₁ (ap (λ q. (q, w₁)) made) in
      let text_is : codec.to_string m.fresh ≡ text =
        ap (λ (v : User). codec.to_string v.uuid) (sym done.made) ∙ cc (ap (λ v. v.0) last) in
      let world : ((create false m.timestamp (registered m input.login done.hash) w.0).1, w.1)
          ≡ w' =
        sym done.world ∙ ap (λ v. v.1) last in
      subst
        (λ (v : String × (Users × R)).
          get_user codec bcrypt redis ttl m' v.0 v.1 ≡ (ok (shown m input.login v.0), v.1))
        (ap₂ (λ a b. (a, b)) text_is world)
        (get_user-registered m m' input.login done.hash w steady done.free)
