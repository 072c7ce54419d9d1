-- ===== src/Order/System/Units.antt =====
-- How many units of a part the orders hold, by the states of the orders: what an INSERT of an order
-- and an UPDATE of its state do to that number (order/internal/repository/order).
use mathlib.Core.List.{Permᴰ}
use rocket_factory.Prelude.{
  ℕ, ◌+◌, String, ◌≡◌, refl, sym, ◌∙◌, ap, subst, Bool, true, false, ◌&&◌, Bool-cases, inl, inr,
  Option, none, some, List, [], ◌∷◌, All, map, contains, ◌==◌, arith,
}
use rocket_factory.Prelude.Counting.{is_distinct}
use rocket_factory.Prelude.Int.{ℤ}
use rocket_factory.Order.Model.{Order, OrderItem, items_uuids}
use rocket_factory.Order.Record.{
  OrderRecord, OrderItemRecord, order_item_models_to_records, order_item_records_to_models,
}
use rocket_factory.Order.Repository.{
  Row, Db, Postgres, find_row, has_row, insert_items, new_row, update_rows, items_of,
}
use rocket_factory.Order.Repository.Rows.{restored, find_row-uuid}
use rocket_factory.Order.Repository.Creation.{HasOrder}

abbrev pub bit : Bool → ℕ
bit true = 1
bit false = 0

-- A number that counts where a test holds.
abbrev pub when : Bool → ℕ → ℕ
when true n = n
when false n = 0

abbrev pub stands : (String → Bool) → Option OrderRecord → Bool
stands f none = false
stands f (some r) = f r.status

-- The items of a part whose orders are in a state that the test lets through.
abbrev pub units : (String → Bool) → ℕ → List Row → List OrderItemRecord → ℕ
units f p rows [] = 0
units f p rows (i ∷ is) =
    bit (p == i.part_uuid && stands f (find_row i.order_uuid rows)) + units f p rows is

-- The items of a part in one order.
abbrev held : ℕ → ℕ → List OrderItemRecord → ℕ
held p u [] = 0
held p u (i ∷ is) = bit (p == i.part_uuid && i.order_uuid == u) + held p u is

abbrev times : ℕ → List ℕ → ℕ
times p [] = 0
times p (u ∷ us) = bit (p == u) + times p us

times-absent : (p : ℕ) (us : List ℕ) → contains p us ≡ false → times p us ≡ 0
times-absent p [] h = refl
times-absent p (u ∷ us) h = ground (arith, h, times-absent p us)

times-is_distinct : (p : ℕ) (us : List ℕ) → is_distinct us ≡ true → times p us ≡ bit (contains p us)
times-is_distinct p [] h = refl
times-is_distinct p (u ∷ us) h = ground (arith, h, times-is_distinct p us, times-absent p us)

abbrev part_uuids : List OrderItemRecord → List ℕ
part_uuids = map (λ i. i.part_uuid)

times-perm :
    (p : ℕ) {xs ys : List OrderItemRecord}
    → Permᴰ xs ys
    → times p (part_uuids xs) ≡ times p (part_uuids ys)
times-perm p Permᴰ.nil = refl
times-perm p (Permᴰ.cons e q) = ground (arith, e, times-perm p q)
times-perm p (Permᴰ.swap e f) = ground (arith, e, f)
times-perm p (Permᴰ.trans q r) = times-perm p q ∙ times-perm p r

times-items_of :
    (p u : ℕ) (items : List OrderItemRecord)
    → times p (part_uuids (items_of u items)) ≡ held p u items
times-items_of p u [] = refl
times-items_of p u (i ∷ items) = ground (arith, times-items_of p u items)

models-part_uuids :
    (rs : List OrderItemRecord)
    → map (λ item. item.uuid) (order_item_records_to_models rs) ≡ part_uuids rs
unfolding order_item_records_to_models
models-part_uuids [] = refl
models-part_uuids (r ∷ rs) = ap (λ us. r.part_uuid ∷ us) (models-part_uuids rs)

module _ (db : Postgres) (u : ℕ) (d : Db) (r : OrderRecord) where
  abbrev pub read_ids : List ℕ
  read_ids = items_uuids (restored db u d r)

  -- The items of an order that names no part twice, as they are read back in any order.
  held-eq : (p : ℕ) → is_distinct read_ids ≡ true → held p u d.items ≡ bit (contains p read_ids)
  unfolding items_uuids
  held-eq p once =
      sym (times-items_of p u d.items)
      ∙ sym (times-perm p (db.arrange_perm (items_of u d.items)))
      ∙ ap (times p) (sym (models-part_uuids (db.arrange (items_of u d.items))))
      ∙ times-is_distinct p _ once

pub find_row-other :
    (now : ℤ) (o : Order) (rows : List Row) (v : ℕ)
    → (v == o.uuid) ≡ false
    → find_row v (update_rows now o rows) ≡ find_row v rows
unfolding update_rows
find_row-other now o [] v h = refl
find_row-other now o (row ∷ rows) v h = elim (Bool-cases (o.uuid == row.order.uuid)) [
  | inl e ↦ rw e (ground (arith, e, h, find_row-other now o rows v h))
  | inr e ↦ rw (e, find_row-other now o rows v h) refl
]

module _ (f : String → Bool) where
  pub find_row-written :
      (now : ℤ) (o : Order) (rows : List Row) {r : OrderRecord}
      → find_row o.uuid rows ≡ some r
      → stands f (find_row o.uuid (update_rows now o rows)) ≡ f o.status
  unfolding update_rows
  find_row-written now o [] h = cc
  find_row-written now o (row ∷ rows) {r} h = elim (Bool-cases (o.uuid == row.order.uuid)) [
    | inl e ↦ rw (e, e) refl
    | inr e ↦ rw (e, e) (find_row-written now o rows {r = r} (rw e at h))
  ]

  -- Writing the row of an order moves its items from its old state to its new one.
  pub units-update_rows :
      (now : ℤ) (o : Order) (rows : List Row) {r : OrderRecord} (p : ℕ)
      (items : List OrderItemRecord)
      → find_row o.uuid rows ≡ some r
      → units f p (update_rows now o rows) items + when (f r.status) (held p o.uuid items)
        ≡ units f p rows items + when (f o.status) (held p o.uuid items)
  units-update_rows now o rows p [] h = ground arith
  units-update_rows now o rows {r} p (i ∷ items) h = elim (Bool-cases (i.order_uuid == o.uuid)) [
    | inl e ↦ ground (
      arith,
      e,
      h,
      units-update_rows now o rows {r = r} p items h,
      find_row-written now o rows {r = r} h,
    )
    | inr e ↦
        rw (find_row-other now o rows i.order_uuid e, e)
          (ground (arith, units-update_rows now o rows {r = r} p items h))
  ]

  module _ (p : ℕ) (rows : List Row) where
    units-insert_items :
        (all : List Row) (is items : List OrderItemRecord) {items' : List OrderItemRecord}
        → insert_items all is items ≡ some items'
        → units f p rows items' ≡ units f p rows is + units f p rows items
    units-insert_items all [] items {items'} h =
        let same : items ≡ items' = cc in omega (arith, ap (units f p rows) same)
    units-insert_items all (i ∷ is) items {items'} h =
        let rest : insert_items all is (i ∷ items) ≡ some items' = ground (arith, h) in
        let counted = units-insert_items all is (i ∷ items) {items' = items'} rest in
        omega (arith, counted)

  module _ (timestamp : ℤ → ℤ) (p : ℕ) (o : Order) (rows : List Row) where
    -- The items of the orders that were there before.
    units-old :
        (items : List OrderItemRecord)
        → has_row o.uuid rows ≡ false
        → All (HasOrder rows) items
        → units f p (new_row timestamp o ∷ rows) items ≡ units f p rows items
    units-old [] fresh all = refl
    units-old (i ∷ items) fresh all = elim (Bool-cases (i.order_uuid == o.uuid)) [
      | inl e ↦ ground (arith, e, fresh, all.0)
      | inr e ↦ rw (e, units-old items fresh all.1) refl
    ]

    units-new :
        (items : List OrderItem)
        → units f p (new_row timestamp o ∷ rows) (order_item_models_to_records o.uuid items)
          ≡ when (f o.status) (times p (map (λ item. item.uuid) items))
    unfolding order_item_models_to_records
    units-new [] = ground arith
    units-new (item ∷ items) = ground (arith, units-new items)

module _ (timestamp : ℤ → ℤ) (f : String → Bool) (p : ℕ) (o : Order) (rows : List Row) where
  -- Inserting an order adds its items, if its state counts.
  pub units-create :
      (items : List OrderItemRecord) {items' : List OrderItemRecord}
      → has_row o.uuid rows ≡ false
      → All (HasOrder rows) items
      → insert_items
          (new_row timestamp o ∷ rows)
          (order_item_models_to_records o.uuid o.items)
          items
        ≡ some items'
      → is_distinct (items_uuids o) ≡ true
      → units f p (new_row timestamp o ∷ rows) items'
        ≡ units f p rows items + when (f o.status) (bit (contains p (items_uuids o)))
  unfolding items_uuids
  units-create items {items'} fresh all inserted once =
      let counted =
        units-insert_items f p (new_row timestamp o ∷ rows) (new_row timestamp o ∷ rows) _ items
          {items' = items'} inserted in
      omega (
        arith,
        counted
            ∙ ap (λ n. n + units f p (new_row timestamp o ∷ rows) items)
                (units-new f timestamp p o rows o.items
                  ∙ ap (when (f o.status)) (times-is_distinct p _ once)),
        units-old f timestamp p o rows items fresh all,
      )

module _ (db : Postgres) (u : ℕ) (d : Db) {r : OrderRecord} (there : find_row u d.orders ≡ some r)
    (now : ℤ) (o : Order) (same_id : o.uuid ≡ r.uuid) (f : String → Bool) (p : ℕ) where
  -- An update of an order that names no part twice moves one unit of each of its parts.
  pub units-written :
      is_distinct (read_ids db u d r) ≡ true
      → units f p (update_rows now o d.orders) d.items
          + when (f r.status) (bit (contains p (read_ids db u d r)))
        ≡ units f p d.orders d.items + when (f o.status) (bit (contains p (read_ids db u d r)))
  units-written once =
      let key : o.uuid ≡ u = same_id ∙ find_row-uuid u d.orders {r = r} there in
      let found : find_row o.uuid d.orders ≡ some r = rw key there in
      subst
        (λ n.
          units f p (update_rows now o d.orders) d.items + when (f r.status) n
          ≡ units f p d.orders d.items + when (f o.status) n)
        (ap (λ v. held p v d.items) key ∙ held-eq db u d r p once)
        (units-update_rows f now o d.orders {r = r} p d.items found)

  -- An update that stays on one side of the test moves nothing.
  pub units-unmoved :
      f r.status ≡ f o.status
      → units f p (update_rows now o d.orders) d.items ≡ units f p d.orders d.items
  units-unmoved unmoved =
      let key : o.uuid ≡ u = same_id ∙ find_row-uuid u d.orders {r = r} there in
      let found : find_row o.uuid d.orders ≡ some r = rw key there in
      let moved = rw unmoved at (units-update_rows f now o d.orders {r = r} p d.items found) in
      omega (arith, moved)
