-- ===== src/Iam/Service/Registration.antt =====
-- Registering, and logging in afterwards (iam/internal/service/iam/register.go, login.go).
use rocket_factory.Prelude.{
  ℕ, String, ◌≡◌, refl, sym, ap, subst, ◌∙◌, Bool, true, false, Bool-cases, inl, inr, Option, none,
  some, str_eq, eq_iff, if◌then◌else◌, arith, Result, ok, err, UuidCodec,
}
use rocket_factory.Prelude.Int.{ℤ}
use rocket_factory.Prelude.Action.{lift, inside, >>=-eq-ok}
use rocket_factory.Iam.Model.{Error, User, UserRegisterInput, invalid_credentials, empty_credential}
use rocket_factory.Iam.Users.{Users, create, is_taken, user_model_to_record, get_by_login}
use rocket_factory.Iam.Users.Rows.{create-eq-ok, get_by_login-create}
use rocket_factory.Iam.Sessions.{Redis, set}
use rocket_factory.Iam.Service.{Bcrypt, Moment, registered, register, login, validate_data, hashed}

hashed-eq-ok : (o : Option String) {h : String} → hashed o ≡ ok h → o ≡ some h
hashed-eq-ok none h = cc
hashed-eq-ok (some x) h = cc

validate_data-eq-ok :
    (login password : String)
    → validate_data login password ≡ ok tt
    → (str_eq login "" ≡ false) × (str_eq password "" ≡ false)
unfolding validate_data
validate_data-eq-ok login password h = ground (arith, h)

create_world :
    (fault : Bool) (timestamp : ℤ → ℤ) (u : User) (users users' : Users)
    → create fault timestamp u users ≡ (ok tt, users')
    → (is_taken (user_model_to_record u) users ≡ false)
      × (users' ≡ (create false timestamp u users).1)
unfolding create
create_world true timestamp u users users' h = cc
create_world false timestamp u users users' h =
    ((create-eq-ok false timestamp u users users' h).0, sym (ap (λ v. v.1) h))

module _ (codec : UuidCodec) (bcrypt : Bcrypt) {R : Type 0} (redis : Redis R) (ttl : ℤ) where
  -- What a registration without error has done.
  pub record Registers (m : Moment) (input : UserRegisterInput) (w : Users × R) (u : User)
      (w' : Users × R) : Type 0 where
    pub named : str_eq input.login "" ≡ false
    pub guarded : str_eq input.password "" ≡ false
    pub hash : String
    pub generated : bcrypt.generate m.salt input.password ≡ some hash
    pub made : u ≡ registered m input.login hash
    pub free : is_taken (user_model_to_record (registered m input.login hash)) w.0 ≡ false
    pub world : w' ≡ ((create false m.timestamp (registered m input.login hash) w.0).1, w.1)

  pub register-eq-ok :
      (m : Moment) (input : UserRegisterInput) (w w' : Users × R) {u : User}
      → register codec bcrypt redis ttl m input w ≡ (ok u, w')
      → Registers m input w u w'
  unfolding register
  register-eq-ok m input w w' h =
      let (_, valid, rest) = >>=-eq-ok (lift (validate_data input.login input.password)) _ w w' h in
      let (hash, generated, rest') =
        >>=-eq-ok (lift (hashed (bcrypt.generate m.salt input.password))) _ w w' rest in
      let u' = registered m input.login hash in
      let (_, created, last) =
        >>=-eq-ok (inside (create m.users_fault m.timestamp u')) _ w w' rest' in
      let (free, users) =
        create_world m.users_fault m.timestamp u' w.0 _
          (ap (λ q. (q, (create m.users_fault m.timestamp u' w.0).1)) created) in
      let (named, guarded) = validate_data-eq-ok input.login input.password valid in
      record {
        named = named;
        guarded = guarded;
        hash = hash;
        generated = hashed-eq-ok (bcrypt.generate m.salt input.password) generated;
        made = cc (ap (λ v. v.0) last);
        free = free;
        world = sym (ap (λ v. v.1) last) ∙ ap (λ us. (us, w.1)) users;
      }

  -- The answer of a login with a password, to a user whose login is given.
  abbrev pub admission : Moment → User → String → Result Error ℕ
  admission m u password =
      if str_eq password ""
      then err empty_credential
      else if bcrypt.matches u.password_hash password
      then ok m.fresh
      else err invalid_credentials

  -- Logging in as a user that is there.
  login_known :
      (m : Moment) (name password : String) (w : Users × R) (u : User)
      → str_eq name "" ≡ false
      → m.users_fault ≡ false
      → m.hset_fault ≡ none
      → m.expire_fault ≡ none
      → (get_by_login false name w.0).0 ≡ ok u
      → (login codec bcrypt redis ttl m (record { login = name; password = password }) w).0
        ≡ admission m u password
  unfolding login set
  login_known m name password w u named steady h e found = elim (Bool-cases (str_eq password "")) [
    | inl empty ↦ rw (named, empty) refl
    | inr filled ↦ elim (Bool-cases (bcrypt.matches u.password_hash password)) [
      | inl right ↦ rw (named, filled, steady, found, right, h, e) refl
      | inr wrong ↦ rw (named, filled, steady, found, wrong) refl
    ]
  ]

  -- After a registration a login with the same password leads to a session; with another one it is
  -- answered by whether that matches the stored hash, where the databases answer.
  pub login-register :
      (m m' : Moment) (input : UserRegisterInput) (w w' : Users × R) {u : User}
      → register codec bcrypt redis ttl m input w ≡ (ok u, w')
      → m'.users_fault ≡ false
      → m'.hset_fault ≡ none
      → m'.expire_fault ≡ none
      → (password : String)
      → ((login codec bcrypt redis ttl m'
            (record { login = input.login; password = password })
            w').0
          ≡ admission m' u password)
        × (admission m' u input.password ≡ ok m'.fresh)
  login-register m m' input w w' {u} h steady hset expire password =
      let done = register-eq-ok m input w w' h in
      let user = registered m input.login done.hash in
      let self : str_eq input.login input.login ≡ true =
        ground (arith, eq_iff input.login input.login) in
      let kept : User = record user { created_at = m.timestamp m.now } in
      let found : (get_by_login false input.login w'.0).0 ≡ ok kept =
        ap (λ (v : Users × R). (get_by_login false input.login v.0).0) done.world
        ∙ get_by_login-create m.timestamp user w.0 input.login done.free
        ∙ rw self refl in
      (
        subst
            (λ v.
              (login codec bcrypt redis ttl m' (record { login = input.login; password = password })
                w').0
              ≡ admission m' v password)
            (sym done.made)
            (login_known m' input.login password w' kept done.named steady hset expire found),
        subst (λ v. admission m' v input.password ≡ ok m'.fresh) (sym done.made)
            (rw
              (done.guarded, bcrypt.matches-generate m.salt input.password done.hash done.generated)
              refl),
      )
