-- ===== src/Iam/Users/Rows.antt =====
-- The rows that the users repository finds and adds (iam/internal/repository/user).
use rocket_factory.Prelude.{
  String, ◌≡◌, refl, ap, ◌∙◌, Bool, true, false, Bool-cases, Option-cases, inl, inr, none, some,
  ◌∷◌, str_eq, ◌==◌, ◌⊎◌, [], if◌then◌else◌, arith, ok,
}
use rocket_factory.Prelude.Int.{ℤ}
use rocket_factory.Iam.Model.{User}
use rocket_factory.Iam.Users.{
  UserRecord, Users, user_model_to_record, user_record_to_model, select_row, is_taken, create,
  stored, scan_user, get_by_login,
}

-- Reading changes nothing.
pub get_by_login_keeps :
    (fault : Bool) (login : String) (users : Users) → (get_by_login fault login users).1 ≡ users
unfolding get_by_login
get_by_login_keeps true login users = refl
get_by_login_keeps false login users = refl

-- A user is added, as the columns keep it, where neither its identifier nor its login is taken.
pub create-eq-ok :
    (fault : Bool) (timestamp : ℤ → ℤ) (u : User) (users users' : Users)
    → create fault timestamp u users ≡ (ok tt, users')
    → (is_taken (user_model_to_record u) users ≡ false)
      × (users' ≡ stored timestamp (user_model_to_record u) ∷ users)
unfolding create
create-eq-ok true timestamp u users users' h = cc
create-eq-ok false timestamp u users users' h =
    elim (Bool-cases (is_taken (user_model_to_record u) users)) [
      | inl taken ↦ cc (rw taken at h)
      | inr free ↦ (free, cc (rw free at h))
    ]

-- Every row stays, and a new row has the identifier and the login of its user.
pub get_by_login-create :
    (timestamp : ℤ → ℤ) (u : User) (users : Users) (login : String)
    → is_taken (user_model_to_record u) users ≡ false
    → (get_by_login false login (create false timestamp u users).1).0 ≡ (
        if str_eq u.login login
        then ok (record u { created_at = timestamp u.created_at; updated_at = none })
        else (get_by_login false login users).0)
unfolding get_by_login create user_model_to_record scan_user user_record_to_model
get_by_login-create timestamp u users login free = elim (Bool-cases (str_eq u.login login)) [
  | inl same ↦ rw (free, same) refl
  | inr different ↦ rw (free, different) refl
]

-- No row has a key of another.
abbrev pub IsUnique : Users → Type 0
IsUnique [] = Unit
IsUnique (r ∷ rs) = (is_taken r rs ≡ false) × IsUnique rs

-- The row that stands under its own key.
abbrev pub HasUser : Users → UserRecord → Type 0
HasUser users u = select_row (λ r. r.uuid == u.uuid) users ≡ some u

-- A row that is found under a key is in the way of a new one with that key or with that login.
select_row_taken :
    (r u : UserRecord) (p : UserRecord → Bool) (users : Users)
    → select_row p users ≡ some u
    → is_taken r users ≡ false
    → (r.uuid == u.uuid) ≡ false
select_row_taken r u p [] h free = cc
select_row_taken r u p (s ∷ rs) h free = elim (Bool-cases (p s)) [
  | inl here ↦
      let same : s ≡ u = cc (rw here at h) in
      ground (arith, free, ap (λ (v : UserRecord). v.uuid) same)
  | inr on ↦ select_row_taken r u p rs (rw on at h) (ground (arith, free))
]

-- A new row leaves every other under its key.
pub HasUser-cons :
    (r u : UserRecord) (users : Users)
    → is_taken r users ≡ false
    → HasUser users u
    → HasUser (r ∷ users) u
HasUser-cons r u users free h = rw (select_row_taken r u (λ s. s.uuid == u.uuid) users h free) h

-- What is found by any condition is found under its key.
pub HasUser-select_row :
    (p : UserRecord → Bool) (users : Users) (u : UserRecord)
    → IsUnique users
    → select_row p users ≡ some u
    → HasUser users u
HasUser-select_row p [] u unique h = cc
HasUser-select_row p (r ∷ rs) u unique h = elim (Bool-cases (p r)) [
  | inl here ↦
      let same : r ≡ u = cc (rw here at h) in
      let self : (u.uuid == u.uuid) ≡ true = ground arith in rw (same, self) refl
  | inr on ↦ HasUser-cons r u rs unique.0 (HasUser-select_row p rs u unique.1 (rw on at h))
]

is_taken-stored :
    (timestamp : ℤ → ℤ) (r : UserRecord) (users : Users)
    → is_taken (stored timestamp r) users ≡ is_taken r users
is_taken-stored timestamp r [] = refl
is_taken-stored timestamp r (s ∷ rs) = rw (is_taken-stored timestamp r rs) refl

-- However Create ends, the table is as it was, or it has one more row whose keys were free.
pub create_cases :
    (fault : Bool) (timestamp : ℤ → ℤ) (u : User) (users : Users)
    → ((create fault timestamp u users).1 ≡ users)
      ⊎ ((r : UserRecord) × (is_taken r users ≡ false)
          × ((create fault timestamp u users).1 ≡ r ∷ users))
unfolding create
create_cases true timestamp u users = inl refl
create_cases false timestamp u users = elim (Bool-cases (is_taken (user_model_to_record u) users)) [
  | inl taken ↦ inl (rw taken refl)
  | inr free ↦ inr (
    stored timestamp (user_model_to_record u),
    is_taken-stored timestamp (user_model_to_record u) users ∙ free,
    rw free refl,
  )
]

-- A user that a login finds stands under its key.
pub get_by_login-HasUser :
    (fault : Bool) (login : String) (users : Users) (u : User)
    → IsUnique users
    → (get_by_login fault login users).0 ≡ ok u
    → (r : UserRecord) × HasUser users r × (u ≡ user_record_to_model r)
unfolding get_by_login scan_user
get_by_login-HasUser true login users u unique h = cc
get_by_login-HasUser false login users u unique h =
    elim (Option-cases (select_row (λ r. str_eq r.login login) users)) [
      | inl e ↦ cc (rw e at h)
      | inr (r, e) ↦
          (r, HasUser-select_row (λ r. str_eq r.login login) users r unique e, cc (rw e at h))
    ]
