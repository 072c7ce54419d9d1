-- ===== src/Order/System/Announced.antt =====
-- Which orders were announced as paid, and that they stay paid or become assembled
-- (order/internal/service/order, order/internal/consumer/assembly_consumer).
use rocket_factory.Prelude.{
  ℕ, String, ◌≡◌, ◌⊎◌, refl, sym, ◌∙◌, subst, Bool, true, false, ◌||◌, Bool-cases, inl, inr, some,
  List, [], ◌∷◌, All, All-map, contains, ◌==◌, arith, str_eq, eq_iff,
}
use rocket_factory.Prelude.Int.{ℤ}
use rocket_factory.Order.Model.{Order, paid, assembled}
use rocket_factory.Order.Record.{OrderRecord}
use rocket_factory.Order.Repository.{Db, Row, find_row, has_row, new_row, update_rows}
use rocket_factory.Order.Repository.Rows.{find_row-uuid}
use rocket_factory.Order.Service.Effects.{written}
use rocket_factory.Order.System.Units.{stands, find_row-other, find_row-written}

abbrev pub was_paid : String → Bool
was_paid s = str_eq s paid || str_eq s assembled

-- The order is in the table, and it was paid.
abbrev pub WasPaid : List Row → ℕ → Type 0
WasPaid rows u = stands was_paid (find_row u rows) ≡ true

pub was_paid-cases : (s : String) → was_paid s ≡ true → (s ≡ paid) ⊎ (s ≡ assembled)
was_paid-cases s h = elim (Bool-cases (str_eq s paid)) [
  | inl e ↦ inl (ground (arith, e, eq_iff s paid))
  | inr e ↦ inr (ground (arith, h, e, eq_iff s assembled))
]

pub All-contains : (P : ℕ → Type 0) (u : ℕ) (us : List ℕ) → contains u us ≡ true → All P us → P u
All-contains P u [] h all = cc
All-contains P u (v ∷ us) h all = elim (Bool-cases (u == v)) [
  | inl e ↦ subst P (ground (arith, e)) all.0
  | inr e ↦ All-contains P u us (ground (arith, h, e)) all.1
]

WasPaid-has_row : (u : ℕ) (rows : List Row) → WasPaid rows u → has_row u rows ≡ true
WasPaid-has_row u [] h = cc
WasPaid-has_row u (row ∷ rows) h = elim (Bool-cases (u == row.order.uuid)) [
  | inl e ↦ rw e refl
  | inr e ↦ rw e (WasPaid-has_row u rows (rw e at h))
]

-- Placing an order under a free key.
pub WasPaid-new_row :
    (timestamp : ℤ → ℤ) (o : Order) (rows : List Row) (u : ℕ)
    → has_row o.uuid rows ≡ false
    → WasPaid rows u
    → WasPaid (new_row timestamp o ∷ rows) u
WasPaid-new_row timestamp o rows u fresh h = elim (Bool-cases (u == o.uuid)) [
  | inl e ↦
      let key : u ≡ o.uuid = ground (arith, e) in
      let there = rw key at (WasPaid-has_row u rows h) in cc
  | inr e ↦ rw e h
]

-- Writing the row of an order that, if it was paid, stays so.
pub WasPaid-update_rows :
    (now : ℤ) (o : Order) (rows : List Row) {r : OrderRecord} (u : ℕ)
    → find_row o.uuid rows ≡ some r
    → (was_paid r.status ≡ true → was_paid o.status ≡ true)
    → WasPaid rows u
    → WasPaid (update_rows now o rows) u
WasPaid-update_rows now o rows {r} u there stays h = elim (Bool-cases (u == o.uuid)) [
  | inl e ↦
      let key : u ≡ o.uuid = ground (arith, e) in
      let before = rw (key, there) at h in
      rw key (find_row-written was_paid now o rows {r = r} there ∙ stays before)
  | inr e ↦ rw (find_row-other now o rows u e) h
]

-- Writing it as paid.
pub WasPaid-written :
    (now : ℤ) (o : Order) (rows : List Row) {r : OrderRecord} (u : ℕ)
    → find_row u rows ≡ some r
    → o.uuid ≡ u
    → was_paid o.status ≡ true
    → WasPaid (update_rows now o rows) u
WasPaid-written now o rows {r} u there key bought =
    subst (WasPaid (update_rows now o rows)) key
      (find_row-written was_paid now o rows {r = r} (rw key there) ∙ bought)

-- An order that was read and written under its key, and is paid if it was.
pub written-WasPaid :
    (u : ℕ) (d : Db) {r : OrderRecord} (now : ℤ) (o : Order) (sent : List ℕ) {d' : Db}
    → find_row u d.orders ≡ some r
    → o.uuid ≡ r.uuid
    → (was_paid r.status ≡ true → was_paid o.status ≡ true)
    → d' ≡ written now o d
    → All (WasPaid d.orders) sent
    → All (WasPaid d'.orders) sent
written-WasPaid u d {r} now o sent there same_id stays world all =
    let key : o.uuid ≡ u = same_id ∙ find_row-uuid u d.orders {r = r} there in
    subst (λ d'. All (WasPaid d'.orders) sent) (sym world)
      (All-map (λ v. WasPaid-update_rows now o d.orders {r = r} v (rw key there) stays) sent all)
