-- ===== src/Iam/Service/Runs.antt =====
-- Every order of the calls of the IAM service (iam/internal/service/iam).
use rocket_factory.Prelude.{
  ℕ, ◌≡◌, refl, sym, ap, subst, Bool, true, false, Bool-cases, inl, inr, ◌⊎◌, Option, none, some,
  ◌==◌, if◌then◌else◌, arith, Result, ok, err, panic, UuidCodec,
}
use rocket_factory.Prelude.Int.{ℤ}
use rocket_factory.Prelude.Action
use rocket_factory.Prelude.Action.{
  Action, lift, pure, inside, outside, continue, Keeps, >>=-Keeps, ◌>>=◌, ◌>>◌,
}
use rocket_factory.Iam.Model.{Error, User, UserRegisterInput, UserLoginInput}
use rocket_factory.Iam.Users.{UserRecord, Users, create, user_record_to_model}
use rocket_factory.Iam.Users.Rows.{
  IsUnique, HasUser, HasUser-cons, create_cases, get_by_login-HasUser,
}
use rocket_factory.Iam.Sessions.{
  SessionRedisView, zero_view, Redis, RedisError, set, delete, get_session_key,
  user_model_to_session_view,
}
use rocket_factory.Iam.Sessions.Storage.{Absent, set_view, set_other, hgetall-delete}
use rocket_factory.Iam.Service.{
  Bcrypt, Moment, registered, register, authenticate, login, logout, validate_data, hashed,
}
use rocket_factory.Iam.Service.Login.{authenticate-eq-ok, authenticate_keeps}

module _ (codec : UuidCodec) where
  -- The hash of a session belongs to a user of the table.
  abbrev pub Owned : Users → ℕ → SessionRedisView → Type 0
  Owned users s v =
      (u : UserRecord) × HasUser users u
      × (v.user_uuid ≡ codec.to_string u.uuid)
      × (v.user_login ≡ u.login)
      × (v.session_uuid ≡ codec.to_string s)

  module _ {R : Type 0} (redis : Redis R) where
    -- Identifiers and logins are unique, and what stands under the key of a session at any time is
    -- nothing, or that session of a user of the table.
    pub record IsConsistent (w : Users × R) : Type 0 where
      pub unique : IsUnique w.0
      pub owned :
          (t : ℤ) (s : ℕ)
          → (redis.hgetall t (get_session_key codec s) w.1 ≡ zero_view)
            ⊎ Owned w.0 s (redis.hgetall t (get_session_key codec s) w.1)

    create-IsConsistent :
        (fault : Bool) (timestamp : ℤ → ℤ) (u : User) (users : Users) (r : R)
        → IsConsistent (users, r)
        → IsConsistent ((create fault timestamp u users).1, r)
    create-IsConsistent fault timestamp u users r c = elim (create_cases fault timestamp u users) [
      | inl same ↦ subst (λ us. IsConsistent (us, r)) (sym same) c
      | inr (row, free, more) ↦
          subst (λ us. IsConsistent (us, r)) (sym more)
            (record {
              unique = (free, c.unique);
              owned = λ t s. elim (c.owned t s) [
                | inl gone ↦ inl gone
                | inr (v, there, who, name, which) ↦
                    inr (v, HasUser-cons row v users free there, who, name, which)
              ];
            })
    ]

    delete-IsConsistent :
        (fault : Option RedisError) (s : ℕ) (users : Users) (r : R)
        → IsConsistent (users, r)
        → IsConsistent (users, (delete codec redis fault s r).1)
    unfolding delete
    delete-IsConsistent (some f) s users r c = c
    delete-IsConsistent none s users r c = record {
      unique = c.unique;
      owned = λ t o.
          subst (λ v. (v ≡ zero_view) ⊎ Owned users o v) (sym (hgetall-delete codec redis s r t o))
            (elim (o == s)
              as (λ b.
                ((if b then zero_view else redis.hgetall t (get_session_key codec o) r) ≡ zero_view)
                ⊎ Owned users o
                    (if b then zero_view else redis.hgetall t (get_session_key codec o) r)) [
                      | true ↦ inl refl
                      | false ↦ c.owned t o
                    ]);
    }

    set-IsConsistent :
        (now later : ℤ) (h e : Option RedisError) (s : ℕ) (row : UserRecord) (ttl : ℤ)
        (users : Users) (r : R)
        → HasUser users row
        → Absent codec redis s r
        → IsConsistent (users, r)
        → IsConsistent (users, (set codec redis now later h e s (user_record_to_model row) ttl r).1)
    unfolding user_model_to_session_view user_record_to_model
    set-IsConsistent now later h e s row ttl users r there absent c = record {
      unique = c.unique;
      owned = λ t o. elim (Bool-cases (o == s)) [
        | inl same ↦
            let eq : s ≡ o = ground (arith, same) in
            let after = (set codec redis now later h e s (user_record_to_model row) ttl r).1 in
            subst
              (λ k.
                (redis.hgetall t (get_session_key codec k) after ≡ zero_view)
                ⊎ Owned users k (redis.hgetall t (get_session_key codec k) after))
              eq
              (elim (set_view codec redis now later h e s (user_record_to_model row) ttl r absent
                t) [
                  | inl gone ↦ inl gone
                  | inr kept ↦ inr (
                    row,
                    there,
                    ap (λ v. v.user_uuid) kept,
                    ap (λ v. v.user_login) kept,
                    ap (λ v. v.session_uuid) kept,
                  )
                ])
        | inr ne ↦
            subst (λ v. (v ≡ zero_view) ⊎ Owned users o v)
              (sym (set_other codec redis now later h e s (user_record_to_model row) ttl r t o ne))
              (c.owned t o)
      ];
    }

    module _ (bcrypt : Bcrypt) (ttl : ℤ) where
      register-IsConsistent :
          (m : Moment) (input : UserRegisterInput)
          → Keeps IsConsistent (register codec bcrypt redis ttl m input)
      unfolding register
      register-IsConsistent m input =
          Action.>>=-Keeps IsConsistent (lift (validate_data input.login input.password)) _
            (λ w c. c)
            (λ _.
              Action.>>=-Keeps IsConsistent (lift (hashed (bcrypt.generate m.salt input.password)))
                _ (λ w c. c)
                (λ hash.
                  Action.>>=-Keeps IsConsistent
                    (inside (create m.users_fault m.timestamp (registered m input.login hash))) _
                    (λ w c. create-IsConsistent m.users_fault m.timestamp _ w.0 w.1 c)
                    (λ _ w c. c)))

      -- What Login does after it found out who the user is.
      enter : Moment → User → Action Error (Users × R) ℕ
      enter m user =
          outside (set codec redis m.now m.later m.hset_fault m.expire_fault m.fresh user ttl)
          >> pure m.fresh

      enter-IsConsistent :
          (m : Moment) (u : User) (row : UserRecord) (w : Users × R)
          → u ≡ user_record_to_model row
          → HasUser w.0 row
          → Absent codec redis m.fresh w.1
          → IsConsistent w
          → IsConsistent (enter m u w).1
      unfolding enter
      enter-IsConsistent m u row w e there absent c =
          Action.>>=-Keeps IsConsistent
            (λ v.
              outside (set codec redis m.now m.later m.hset_fault m.expire_fault m.fresh u ttl) w)
            (λ _. pure m.fresh)
            (λ v _.
              subst
                (λ x. IsConsistent (
                  w.0,
                  (set codec redis m.now m.later m.hset_fault m.expire_fault m.fresh x ttl w.1).1,
                ))
                (sym e)
                (set-IsConsistent m.now m.later m.hset_fault m.expire_fault m.fresh row ttl w.0 w.1
                  there absent c))
            (λ _ v d. d) w c

      login-IsConsistent :
          (m : Moment) (input : UserLoginInput) (w : Users × R)
          → Absent codec redis m.fresh w.1
          → IsConsistent w
          → IsConsistent (login codec bcrypt redis ttl m input w).1
      unfolding login enter
      login-IsConsistent m input w absent c =
          by_result (authenticate codec bcrypt redis ttl m input w).0 refl
        where
          w₁ : Users × R
          w₁ = (authenticate codec bcrypt redis ttl m input w).1

          by_result :
              (q : Result Error User)
              → (authenticate codec bcrypt redis ttl m input w).0 ≡ q
              → IsConsistent (continue q (enter m) w₁).1
          by_result (err e) h =
              subst IsConsistent (sym (authenticate_keeps codec bcrypt redis ttl m input w)) c
          by_result panic h =
              subst IsConsistent (sym (authenticate_keeps codec bcrypt redis ttl m input w)) c
          by_result (ok u) h =
              let (authentic, same) =
                authenticate-eq-ok codec bcrypt redis ttl m input w w₁ (ap (λ q. (q, w₁)) h) in
              let (row, there, e) =
                get_by_login-HasUser m.users_fault input.login w.0 u c.unique authentic.0 in
              subst (λ v. IsConsistent (enter m u v).1) (sym same)
                (enter-IsConsistent m u row w e there absent c)

      -- A call of the service, however it ends. The session of a login gets an identifier under which
      -- Redis keeps nothing.
      pub data Step : Users × R → Users × R → Type 0 where
        registers :
            (m : Moment) (input : UserRegisterInput) (w : Users × R)
            → Step w (register codec bcrypt redis ttl m input w).1
        logs_in :
            (m : Moment) (input : UserLoginInput) (w : Users × R)
            → Absent codec redis m.fresh w.1
            → Step w (login codec bcrypt redis ttl m input w).1
        logs_out :
            (m : Moment) (s : ℕ) (w : Users × R) → Step w (logout codec bcrypt redis ttl m s w).1

      pub data Reach : Users × R → Users × R → Type 0 where
        stay : (w : Users × R) → Reach w w
        then_step : (w v u : Users × R) → Reach w v → Step v u → Reach w u

      step-IsConsistent : (w v : Users × R) → Step w v → IsConsistent w → IsConsistent v
      unfolding logout
      step-IsConsistent _ _ (registers m input w) c = register-IsConsistent m input w c
      step-IsConsistent _ _ (logs_in m input w absent) c = login-IsConsistent m input w absent c
      step-IsConsistent _ _ (logs_out m s w) c = delete-IsConsistent m.del_fault s w.0 w.1 c

      pub Reach-IsConsistent : (w v : Users × R) → Reach w v → IsConsistent w → IsConsistent v
      Reach-IsConsistent _ _ (stay w) c = c
      Reach-IsConsistent _ _ (then_step w z v before last) c =
          step-IsConsistent z v last (Reach-IsConsistent w z before c)
