-- ===== src/Order/System/Accounts.antt =====
-- The accounts that the two services share: what the inventory reserves and what is left of its
-- stock, against the items of the orders (order/internal/service/order, inventory/internal).
use mathlib.Core.List.{Permᴰ}
use rocket_factory.Prelude.{
  ℕ, String, ◌≡◌, refl, sym, ◌∙◌, ap, subst, Bool, true, false, ◌||◌, Bool-cases, inl, inr, some,
  List, [], ◌∷◌, All, All-map₂, IsDistinct, map, ◌==◌, arith, str_eq,
}
use rocket_factory.Prelude.Int.{ℤ, pos, ◌+ℤ◌}
use rocket_factory.Inventory.Record.{PartRecord}
use rocket_factory.Inventory.Repository.{Table, is_empty}
use rocket_factory.Inventory.Repository.Selection.{row_ids}
use rocket_factory.Inventory.Service.Changed.{touches}
use rocket_factory.Inventory.Service.Rows.{IsStockedRow, IsStockedTable, row_ids-map, All-over-map}
use rocket_factory.Inventory.Service.Reservation.{Changed}
use rocket_factory.Order.Model.{items_uuids, pending_payment, paid, assembled}
use rocket_factory.Order.Record.{OrderRecord, OrderItemRecord, order_item_records_to_models}
use rocket_factory.Order.Repository.{Row, Db, Postgres, find_row, insert_items, items_of}
use rocket_factory.Order.Repository.Rows.{order_ids}
use rocket_factory.Order.Repository.Creation.{HasOrder}
use rocket_factory.Order.System.Units.{units, read_ids}

-- The states whose orders hold a reservation.
abbrev pub is_open : String → Bool
is_open s = str_eq s pending_payment || str_eq s paid

abbrev pub is_assembled : String → Bool
is_assembled s = str_eq s assembled

-- The units of a part in the orders of some states.
abbrev pub units_of : (String → Bool) → ℕ → Db → ℕ
units_of f p d = units f p d.orders d.items

-- A row of the inventory has reserved one unit for each item of an open order, and has lost one
-- unit of its supply for each item of an assembled one.
abbrev pub Counted : (ℕ → ℤ) → Db → PartRecord → Type 0
Counted supply d r =
    (r.reserved ≡ pos (units_of is_open r.uuid d))
    × (r.stock_quantity +ℤ pos (units_of is_assembled r.uuid d) ≡ supply r.uuid)

-- The order has an item.
abbrev pub HasItems : List OrderItemRecord → ℕ → Type 0
HasItems items u = is_empty (items_of u items) ≡ false

-- The tables of the two services fit together, for what the inventory was supplied with.
pub record IsBalanced (supply : ℕ → ℤ) (d : Db) (t : Table) : Type 0 where
  pub owned : All (HasOrder d.orders) d.items
  pub itemed : All (HasItems d.items) (order_ids d.orders)
  pub stocked : IsStockedTable t
  pub counted : All (Counted supply d) t

module _ (us : List ℕ) (row : PartRecord → PartRecord) (Had : PartRecord → Type 0) (t t' : Table)
    (changed : Changed us row Had t t') where
  -- What a call of the inventory did to the touched rows and to the others.
  pub All-Changed :
      {P Q : PartRecord → Type 0}
      → ((r : PartRecord) → P r → touches us r.uuid ≡ true → Had r → Q (row r))
      → ((r : PartRecord) → P r → touches us r.uuid ≡ false → Q r)
      → All P t
      → All Q t'
  All-Changed {P} {Q} inside outside all = subst (All Q) (sym changed.1) (
      All-over-map Q _ t (
        All-map₂ {Q = λ r. touches us r.uuid ≡ true → Had r}
          (λ r p had. elim (Bool-cases (touches us r.uuid)) [
            | inl e ↦ rw e (inside r p e (had e))
            | inr e ↦ rw e (outside r p e)
          ])
          t all changed.2))

  pub Changed-IsStockedTable :
      ((r : PartRecord) → (row r).uuid ≡ r.uuid)
      → ((r : PartRecord) → IsStockedRow r → Had r → IsStockedRow (row r))
      → IsStockedTable t
      → IsStockedTable t'
  Changed-IsStockedTable same_id keeps stocked = record {
    keys =
        subst IsDistinct
          (sym (ap row_ids changed.1 ∙ row_ids-map _ (λ r. ground (arith, same_id r)) t))
          stocked.keys;
    rows = All-Changed (λ r s e had. keeps r s had) (λ r s e. s) stocked.rows;
  }

pub All-find_row :
    (P : ℕ → Type 0) (u : ℕ) (rows : List Row) {r : OrderRecord}
    → find_row u rows ≡ some r
    → All P (order_ids rows)
    → P u
All-find_row P u [] h all = cc
All-find_row P u (row ∷ rows) {r} h all = elim (Bool-cases (u == row.order.uuid)) [
  | inl e ↦ subst P (ground (arith, e)) all.0
  | inr e ↦ All-find_row P u rows {r = r} (rw e at h) all.1
]

is_empty-perm : {A : Type 0} {xs ys : List A} → Permᴰ xs ys → is_empty xs ≡ is_empty ys
is_empty-perm Permᴰ.nil = refl
is_empty-perm (Permᴰ.cons e p) = refl
is_empty-perm (Permᴰ.swap e f) = refl
is_empty-perm (Permᴰ.trans p q) = is_empty-perm p ∙ is_empty-perm q

is_empty-models :
    (rs : List OrderItemRecord)
    → is_empty (map (λ item. item.uuid) (order_item_records_to_models rs)) ≡ is_empty rs
unfolding order_item_records_to_models
is_empty-models [] = refl
is_empty-models (r ∷ rs) = refl

-- The request for the items of an order that has some is not empty.
pub read_ids-nonempty :
    (db : Postgres) (u : ℕ) (d : Db) (r : OrderRecord)
    → HasItems d.items u
    → is_empty (read_ids db u d r) ≡ false
unfolding items_uuids
read_ids-nonempty db u d r some_items =
    is_empty-models (db.arrange (items_of u d.items))
    ∙ is_empty-perm (db.arrange_perm (items_of u d.items))
    ∙ some_items

-- An INSERT of items takes no order its items.
pub HasItems-insert_items :
    (u : ℕ) (rows : List Row) (is items : List OrderItemRecord) {items' : List OrderItemRecord}
    → insert_items rows is items ≡ some items'
    → HasItems items u
    → HasItems items' u
HasItems-insert_items u rows [] items {items'} h has =
    let same : items ≡ items' = cc in subst (λ is. HasItems is u) same has
HasItems-insert_items u rows (i ∷ is) items {items'} h has =
    HasItems-insert_items u rows is (i ∷ items) {items' = items'} (ground (arith, h))
      (ground (arith, has))
