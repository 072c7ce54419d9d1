-- ===== src/Iam/Access/Guards.antt =====
-- A login opens the other services and a logout closes them (order/internal/middleware/auth.go,
-- order/internal/interceptor/auth.go, inventory/internal/interceptor/auth.go over iam/internal).
use Prim.Native.String
use rocket_factory.Prelude.{
  ℕ, ◌≡◌, refl, sym, ap, ◌∙◌, true, Bool-cases, inl, inr, none, some, [], ◌==◌, if◌then◌else◌,
  arith, ok, err, UuidCodec,
}
use rocket_factory.Prelude.Int.{ℤ, ◌+ℤ◌, ltb_ℤ}
use rocket_factory.Prelude.Action.{Action}
use rocket_factory.Prelude.Grpc.{Metadata}
use rocket_factory.Order.Errors.{Error as OrderError}
use rocket_factory.Order.Clients as OrderClients
use rocket_factory.Inventory.Errors.{Error as InventoryError}
use rocket_factory.Inventory.Clients as InventoryClients
use rocket_factory.Session.{
  Context, with_user_uuid, with_session_uuid, session_token_key, session_forwarder, auth,
  auth_middleware,
}
use rocket_factory.Session.Travel.{metadata_token-session_forwarder}
use rocket_factory.Iam.Model.{User, UserLoginInput}
use rocket_factory.Iam.Users.{Users}
use rocket_factory.Iam.Sessions.{Redis}
use rocket_factory.Iam.Sessions.Storage.{Absent}
use rocket_factory.Iam.Service.{Bcrypt, Moment, login, logout}
use rocket_factory.Iam.Service.Login.{Authentic, login-eq-ok, whoami-login, whoami-logout}
use rocket_factory.Iam.Access.{
  header_token-Bearer, whoami_stub, order_whoami-seen, inventory_whoami-seen,
}

module _ (codec : UuidCodec) (bcrypt : Bcrypt) {R : Type 0} (redis : Redis R) (ttl : ℤ) where
  -- The handler runs with the user and the session until the session expires; then it is refused.
  abbrev pub let_in :
      {E A : Type 0}
      → E
      → ℤ
      → ℤ
      → Context
      → (Context → Action E (Users × R) A)
      → Action E (Users × R) A
  let_in refused now expires_at ctx handler w =
      if ltb_ℤ now (redis.second expires_at) then handler ctx w else (err refused, w)

  -- Until its session expires a login is let through by the order service, whose handler has the
  -- user with the given login and password and the new session in its context; from then on the
  -- middleware refuses. The identifier of the session was new, and Redis answers.
  pub auth_middleware-login :
      {A : Type 0} (m m' : Moment) (input : UserLoginInput) (w w' : Users × R) {s : ℕ}
      → login codec bcrypt redis ttl m input w ≡ (ok s, w')
      → Absent codec redis m.fresh w.1
      → m'.get_fault ≡ none
      → (refused : OrderError) (ctx : Context) (next : Context → Action OrderError (Users × R) A)
      → (u : User) × Authentic codec bcrypt redis ttl m input w.0 u
        × (auth_middleware codec refused
              (OrderClients.whoami codec (whoami_stub codec bcrypt redis ttl m'))
              ctx
              (Prim.Native.String.◌++◌ "Bearer " (codec.to_string s))
              next
              w'
            ≡ let_in refused m'.now
                (m.now +ℤ ttl)
                (with_session_uuid (with_user_uuid ctx u.uuid) s)
                next
                w')
  unfolding auth_middleware
  auth_middleware-login m m' input w w' {s} h absent answers refused ctx next =
      let (u, authentic, found) =
        whoami-login codec bcrypt redis ttl m m' input w w' h absent answers in
      let new = (login-eq-ok codec bcrypt redis ttl m input w w' h).2 in
      let path = order_whoami-seen codec bcrypt redis ttl m' s w' in
      (
        u,
        authentic,
        elim (Bool-cases (ltb_ℤ m'.now (redis.second (m.now +ℤ ttl)))) [
          | inl before ↦
              rw (header_token-Bearer codec s, path, found, before)
                (ap (λ k. next (with_session_uuid (with_user_uuid ctx u.uuid) k) w') (sym new))
          | inr after ↦ rw (header_token-Bearer codec s, path, found, after) refl
        ],
      )

  -- A call that the order service makes for a logged-in user is let through by the inventory in the same
  -- way: the session travels in the metadata, which had none before, and the inventory asks IAM.
  pub auth-login :
      {A M : Type 0} (metadata : Metadata M) (m m' : Moment) (input : UserLoginInput)
      (w w' : Users × R) {s : ℕ}
      → login codec bcrypt redis ttl m input w ≡ (ok s, w')
      → Absent codec redis m.fresh w.1
      → m'.get_fault ≡ none
      → (refused : InventoryError) (sender ctx : Context) (md : M)
        (handler : Context → Action InventoryError (Users × R) A)
      → sender.session_uuid ≡ some s
      → metadata.get session_token_key md ≡ []
      → (u : User) × Authentic codec bcrypt redis ttl m input w.0 u
        × (auth codec refused
              (InventoryClients.whoami codec (whoami_stub codec bcrypt redis ttl m'))
              metadata
              ctx
              (some (session_forwarder codec metadata sender md))
              handler
              w'
            ≡ let_in refused m'.now
                (m.now +ℤ ttl)
                (with_session_uuid (with_user_uuid ctx u.uuid) s)
                handler
                w')
  unfolding auth
  auth-login metadata m m' input w w' {s} h absent answers refused sender ctx md handler own free =
      let (u, authentic, found) =
        whoami-login codec bcrypt redis ttl m m' input w w' h absent answers in
      let new = (login-eq-ok codec bcrypt redis ttl m input w w' h).2 in
      let path = inventory_whoami-seen codec bcrypt redis ttl m' s w' in
      let token = metadata_token-session_forwarder codec metadata sender md free ∙ own in
      (
        u,
        authentic,
        elim (Bool-cases (ltb_ℤ m'.now (redis.second (m.now +ℤ ttl)))) [
          | inl before ↦
              rw (token, path, found, before)
                (ap (λ k. handler (with_session_uuid (with_user_uuid ctx u.uuid) k) w') (sym new))
          | inr after ↦ rw (token, path, found, after) refl
        ],
      )

  -- After a logout the order service refuses the session.
  pub auth_middleware-logout :
      {A : Type 0} (m m' : Moment) (s : ℕ) (w w' : Users × R)
      → logout codec bcrypt redis ttl m s w ≡ (ok tt, w')
      → m'.get_fault ≡ none
      → (refused : OrderError) (ctx : Context) (next : Context → Action OrderError (Users × R) A)
      → auth_middleware codec refused
          (OrderClients.whoami codec (whoami_stub codec bcrypt redis ttl m'))
          ctx
          (Prim.Native.String.◌++◌ "Bearer " (codec.to_string s))
          next
          w'
        ≡ (err refused, w')
  unfolding auth_middleware
  auth_middleware-logout m m' s w w' h answers refused ctx next =
      let self : (s == s) ≡ true = ground arith in
      rw
        (
          header_token-Bearer codec s,
          order_whoami-seen codec bcrypt redis ttl m' s w',
          whoami-logout codec bcrypt redis ttl m m' s w w' h answers s,
          self,
        )
        refl
