-- ===== src/Iam/Service/Login.antt =====
-- Logging in and out, and what Whoami then answers (iam/internal/service/iam).
use rocket_factory.Prelude.{
  ℕ, ◌≡◌, refl, sym, ap, subst, ◌∙◌, Bool, true, false, Bool-cases, inl, inr, Option, none, some,
  ◌==◌, if◌then◌else◌, Result, ok, err, panic, UuidCodec,
}
use rocket_factory.Prelude.Int.{ℤ, ◌+ℤ◌, ltb_ℤ}
use rocket_factory.Prelude.Action
use rocket_factory.Prelude.Action.{Action, lift, pure, inside, outside, >>=-eq-ok, ◌>>=◌, ◌>>◌}
use rocket_factory.Iam.Model.{
  Error, User, Session, UserLoginInput, session_not_found, invalid_credentials, other,
}
use rocket_factory.Iam.Users.{Users, get_by_login}
use rocket_factory.Iam.Users.Rows.{get_by_login_keeps}
use rocket_factory.Iam.Sessions.{
  Redis, RedisError, set, delete, get, models_of, user_model_to_session_view, get_session_key,
}
use rocket_factory.Iam.Sessions.Storage.{
  Absent, without_hash, session_of, get-set, hgetall-delete, models_of-view, models_of_missing,
}
use rocket_factory.Iam.Service.{
  Bcrypt, Moment, authenticate, login, logout, whoami, given, attempt, or_invalid, require,
}

or_invalid-eq-ok : {A : Type 0} (r : Result Error A) {a : A} → or_invalid r ≡ ok a → r ≡ ok a
or_invalid-eq-ok (ok a) h = h
or_invalid-eq-ok (err e) h = cc
or_invalid-eq-ok panic h = cc

require-eq-ok : (b : Bool) (e : Error) {u : Unit {0}} → require b e ≡ ok u → b ≡ true
require-eq-ok true e h = refl
require-eq-ok false e h = cc

set-eq-ok :
    (codec : UuidCodec) {R : Type 0} (redis : Redis R) (now later : ℤ) (h e : Option RedisError)
    (s : ℕ) (u : User) (ttl : ℤ) (r r' : R) {a : Unit {0}}
    → set codec redis now later h e s u ttl r ≡ (ok a, r')
    → (set codec redis now later none none s u ttl r).1 ≡ r'
unfolding set
set-eq-ok codec redis now later (some f) e s u ttl r r' q = cc
set-eq-ok codec redis now later none (some f) s u ttl r r' q = cc
set-eq-ok codec redis now later none none s u ttl r r' q = ap (λ v. v.1) q

delete-eq-ok :
    (codec : UuidCodec) {R : Type 0} (redis : Redis R) (fault : Option RedisError) (s : ℕ)
    (r r' : R)
    → delete codec redis fault s r ≡ (ok tt, r')
    → r' ≡ (delete codec redis none s r).1
unfolding delete
delete-eq-ok codec redis (some f) s r r' h = cc
delete-eq-ok codec redis none s r r' h = sym (ap (λ v. v.1) h)

module _ (codec : UuidCodec) (bcrypt : Bcrypt) {R : Type 0} (redis : Redis R) (ttl : ℤ) where
  -- The user has the login, and the password matches its hash.
  abbrev pub Authentic : Moment → UserLoginInput → Users → User → Type 0
  Authentic m input users u =
      ((get_by_login m.users_fault input.login users).0 ≡ ok u)
      × (bcrypt.matches u.password_hash input.password ≡ true)

  pub authenticate-eq-ok :
      (m : Moment) (input : UserLoginInput) (w w' : Users × R) {u : User}
      → authenticate codec bcrypt redis ttl m input w ≡ (ok u, w')
      → Authentic m input w.0 u × (w' ≡ w)
  authenticate-eq-ok m input w w' {u} h =
      let (_, gave, found) = >>=-eq-ok (lift (given input.login input.password)) _ w w' h in
      let (u', read, checked) =
        >>=-eq-ok (inside (attempt (get_by_login m.users_fault input.login))) _ w w' found in
      let (_, passed, last) =
        >>=-eq-ok
          (lift (require (bcrypt.matches u'.password_hash input.password) invalid_credentials)) _ _
          w' checked in
      let same : u' ≡ u = cc (ap (λ v. v.0) last) in
      let kept : w ≡ w' =
        ap (λ us. (us, w.1)) (sym (get_by_login_keeps m.users_fault input.login w.0))
        ∙ ap (λ v. v.1) last in
      (
        (
          or_invalid-eq-ok (get_by_login m.users_fault input.login w.0).0 (cc (read, same)),
          require-eq-ok (bcrypt.matches u.password_hash input.password) invalid_credentials (
              subst
                (λ (v : User).
                  require (bcrypt.matches v.password_hash input.password) invalid_credentials
                  ≡ ok tt)
                same passed),
        ),
        sym kept,
      )

  -- Looking a user up changes nothing.
  pub authenticate_keeps :
      (m : Moment) (input : UserLoginInput) (w : Users × R)
      → (authenticate codec bcrypt redis ttl m input w).1 ≡ w
  authenticate_keeps m input w =
      Action.>>=-Keeps (λ v. v ≡ w) (lift (given input.login input.password)) _ (λ v e. e)
        (λ _.
          Action.>>=-Keeps (λ v. v ≡ w) (inside (attempt (get_by_login m.users_fault input.login)))
            _ (λ v e. ap (λ us. (us, v.1)) (get_by_login_keeps m.users_fault input.login v.0) ∙ e)
            (λ u.
              Action.>>=-Keeps (λ v. v ≡ w)
                (lift (require (bcrypt.matches u.password_hash input.password) invalid_credentials))
                _ (λ v e. e) (λ _ v e. e)))
        w refl

  -- A login without error: the user is authentic, the session is the new one, and it is stored.
  pub login-eq-ok :
      (m : Moment) (input : UserLoginInput) (w w' : Users × R) {s : ℕ}
      → login codec bcrypt redis ttl m input w ≡ (ok s, w')
      → (u : User) × Authentic m input w.0 u
        × (s ≡ m.fresh)
        × (w' ≡ (w.0, (set codec redis m.now m.later none none m.fresh u ttl w.1).1))
  unfolding login
  login-eq-ok m input w w' {s} h =
      let (u, entered, stored) = >>=-eq-ok (authenticate codec bcrypt redis ttl m input) _ w w' h in
      let w₁ = (authenticate codec bcrypt redis ttl m input w).1 in
      let (authentic, same) = authenticate-eq-ok m input w w₁ (ap (λ q. (q, w₁)) entered) in
      let store : Action Error (Users × R) (Unit {0}) =
        outside (set codec redis m.now m.later m.hset_fault m.expire_fault m.fresh u ttl) in
      let (_, wrote, last) =
        >>=-eq-ok store (λ _. pure m.fresh) w w'
          (subst (λ v. (store >> pure m.fresh) v ≡ (ok s, w')) same stored) in
      (
        u,
        authentic,
        cc (ap (λ v. v.0) last),
        sym (ap (λ v. v.1) last)
            ∙ ap (λ r. (w.0, r))
                (sym (
                  set-eq-ok codec redis m.now m.later m.hset_fault m.expire_fault m.fresh u ttl w.1
                    _ (ap (λ q. (q, (store w).1.1)) wrote))),
      )

  -- What Whoami answers on the sessions of a login, by the time of the call.
  abbrev pub answer_at : ℤ → Moment → User → Result Error (User × Session)
  answer_at t m u =
      if ltb_ℤ t (redis.second (m.now +ℤ ttl))
      then ok (without_hash u, session_of m.fresh u m.later (m.now +ℤ ttl))
      else err session_not_found

  -- A login leads to a session of the user with the given login and password. Where its identifier
  -- is new and Redis answers, Whoami gives that user, without the hash of the password, and the
  -- session until the second in which it expires, and refuses the session from then on.
  pub whoami-login :
      (m m' : Moment) (input : UserLoginInput) (w w' : Users × R) {s : ℕ}
      → login codec bcrypt redis ttl m input w ≡ (ok s, w')
      → Absent codec redis m.fresh w.1
      → m'.get_fault ≡ none
      → (u : User) × Authentic m input w.0 u
        × (whoami codec bcrypt redis ttl m' s w' ≡ (answer_at m'.now m u, w'))
  unfolding whoami get
  whoami-login m m' input w w' {s} h absent answers =
      let (u, authentic, new, world) = login-eq-ok m input w w' h in
      let read = λ (f : Option RedisError) (k : ℕ) (r : R). (get codec redis m'.now f k r).0 in
      (
        u,
        authentic,
        ap (λ q. (q, w'))
            (ap (λ f. read f s w'.1) answers
              ∙ ap (λ k. read none k w'.1) new
              ∙ ap (λ (v : Users × R). read none m.fresh v.1) world
              ∙ get-set codec redis m.now m.later m.fresh u ttl w.1 absent m'.now),
      )

  -- After a logout Whoami refuses the session, and answers on every other as before.
  pub whoami-logout :
      (m m' : Moment) (s : ℕ) (w w' : Users × R)
      → logout codec bcrypt redis ttl m s w ≡ (ok tt, w')
      → m'.get_fault ≡ none
      → (asked : ℕ)
      → whoami codec bcrypt redis ttl m' asked w' ≡ (
          if asked == s
          then (err session_not_found, w')
          else ((whoami codec bcrypt redis ttl m' asked w).0, w'))
  unfolding logout whoami get
  whoami-logout m m' s w w' h answers asked =
      let gone : w'.1 ≡ (delete codec redis none s w.1).1 =
        delete-eq-ok codec redis m.del_fault s w.1 w'.1 (ap (λ v. (v.0, v.1.1)) h) in
      let key = get_session_key codec asked in
      let view =
        ap (redis.hgetall m'.now key) gone ∙ hgetall-delete codec redis s w.1 m'.now asked in
      elim (Bool-cases (asked == s)) [
        | inl same ↦ rw (view, same, answers) (ap (λ q. (q, w')) (models_of_missing codec))
        | inr ne ↦ rw (view, ne) refl
      ]

  -- Where EXPIREAT fails after HSET, the login ends with an error, and yet its session is there: at
  -- any later time, however late, Whoami gives the user and the session of that identifier.
  pub whoami_after_failed_expiry :
      (m m' : Moment) (input : UserLoginInput) (w : Users × R) (f : RedisError) (u : User)
      → (authenticate codec bcrypt redis ttl m input w).0 ≡ ok u
      → m.hset_fault ≡ none
      → m.expire_fault ≡ some f
      → Absent codec redis m.fresh w.1
      → m'.get_fault ≡ none
      → ((login codec bcrypt redis ttl m input w).0 ≡ err other)
        × ((whoami codec bcrypt redis ttl m' m.fresh (login codec bcrypt redis ttl m input w).1).0
            ≡ ok (without_hash u, session_of m.fresh u m.later (m.now +ℤ ttl)))
  unfolding login whoami get set
  whoami_after_failed_expiry m m' input w f u entered hset expire absent answers =
      let world = authenticate_keeps m input w in
      (
        rw (entered, hset, expire) refl,
        rw (entered, hset, expire, world, answers)
            (ap (models_of codec) (
                redis.hgetall-hset m'.now (get_session_key codec m.fresh)
                  (user_model_to_session_view codec m.later m.fresh u (m.now +ℤ ttl)) w.1 absent)
              ∙ models_of-view codec m.fresh u m.later (m.now +ℤ ttl)),
      )
