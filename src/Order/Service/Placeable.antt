-- ===== src/Order/Service/Placeable.antt =====
-- When Create succeeds (order/internal/service/order/create.go, order/internal/repository/order/create.go).
use rocket_factory.Prelude.{
  ℕ, ◌≡◌, refl, ◌∙◌, ap, true, false, Bool-cases, inl, inr, none, some, List, [], ◌∷◌, All, map,
  length, ◌==◌, map_result, ok, arith, TxManager, unless_commit_fails, Option-cases,
}
use rocket_factory.Prelude.Counting.{is_distinct}
use rocket_factory.Prelude.Int.{ℤ, pos, leb_ℤ}
use rocket_factory.Order.Errors.{Error}
use rocket_factory.Order.Model.{Order, OrderParts, Part}
use rocket_factory.Order.Record.{OrderItemRecord, order_item_models_to_records}
use rocket_factory.Order.Repository
use rocket_factory.Order.Repository.{
  Db, Postgres, has_row, new_row, insert_items, create_order, create_order_items, create_body,
}
use rocket_factory.Order.Repository.Creation.{nil_of_length}
use rocket_factory.Order.Service.{
  Externals, create, item_of, parts_uuids, new_order, validate_unique_uuids,
}
use rocket_factory.Order.Service.Placing.{InStock, as_item, non_nil, validate_unique_uuids-eq}

items-ok : (ps : List Part) → All InStock ps → map_result item_of ps ≡ ok (map as_item ps)
unfolding item_of
items-ok [] stock = refl
items-ok (p ∷ ps) stock =
    let some_left : leb_ℤ p.stock_quantity (pos 0) ≡ false = ground (arith, stock.0) in
    rw (some_left, items-ok ps stock.1) refl

module _ (db : Postgres) (o : Order) (d : Db) (rows : List OrderItemRecord) where
  abbrev pub recorded : Db
  recorded = record { orders = new_row db.timestamp o ∷ d.orders; items = rows }

  -- The database takes the rows of the order.
  pub record IsRecordable : Type 0 where
    pub fresh : has_row o.uuid d.orders ≡ false
    pub inserted :
        insert_items
          (new_row db.timestamp o ∷ d.orders)
          (order_item_models_to_records o.uuid o.items)
          d.items
        ≡ some rows
    pub order_works : db.insert_order_fault o d ≡ none
    pub items_work :
        db.insert_items_fault o (record d { orders = new_row db.timestamp o ∷ d.orders }) ≡ none

  items_recorded :
      IsRecordable
      → {X : Type 0} (x : X)
      → create_order_items db o (record d { orders = new_row db.timestamp o ∷ d.orders }, x)
        ≡ (ok tt, (recorded, x))
  unfolding create_order_items order_item_models_to_records
  items_recorded r x = elim (Bool-cases (length o.items == 0)) [
    | inr some_items ↦ rw (some_items, r.items_work, r.inserted) refl
    | inl nothing ↦
        let none_new = nil_of_length o.items nothing in
        let same : d.items ≡ rows = cc (
          r.inserted,
          ap
              (λ is.
                insert_items (new_row db.timestamp o ∷ d.orders)
                  (order_item_models_to_records o.uuid is) d.items)
              none_new,
        ) in
        rw nothing (
          ap (λ is. (ok tt, (record { orders = new_row db.timestamp o ∷ d.orders; items = is }, x)))
            same)
  ]

  create_body-recorded :
      IsRecordable → {X : Type 0} (x : X) → create_body db o (d, x) ≡ (ok tt, (recorded, x))
  unfolding create_body create_order
  create_body-recorded r x = rw (r.order_works, r.fresh, items_recorded r x) refl

module _ (db : Postgres) {X : Type 0} (ext : Externals X) (order_uuid : ℕ) (now : ℤ)
    (parts : OrderParts) (d : Db) (x : X) where
  -- A known caller who names no part twice, and whose parts the inventory lists in stock, approves and
  -- reserves, gets the order with those parts at their prices, which is counted, where the database
  -- takes its rows and the commit works; where the commit fails, its error is the answer, and the
  -- tables and the counter are as they were, but the parts are reserved.
  pub create_succeeds :
      (tx : TxManager Error Db X) (user_uuid : ℕ) (listed : List Part) {x₁ x₂ x₃ : X}
      (rows : List OrderItemRecord)
      → is_distinct (non_nil (parts_uuids parts)) ≡ true
      → ext.inventory.list_parts (parts_uuids parts) x ≡ (ok listed, x₁)
      → length listed ≡ length (parts_uuids parts)
      → All InStock listed
      → ext.inventory.validate_compatibility parts x₁ ≡ (ok tt, x₂)
      → ext.inventory.reserve_parts (parts_uuids parts) x₂ ≡ (ok tt, x₃)
      → IsRecordable db (new_order order_uuid user_uuid now (map as_item listed)) d rows
      → create db ext tx (some user_uuid) order_uuid now parts (d, x)
        ≡ unless_commit_fails
            (tx.commit_fault d
              (recorded db (new_order order_uuid user_uuid now (map as_item listed)) d rows)
              x₃)
            (new_order order_uuid user_uuid now (map as_item listed))
            (
              recorded db (new_order order_uuid user_uuid now (map as_item listed)) d rows,
              ext.orders_created_total (pos 1) x₃,
            )
            (d, x₃)
  unfolding create Repository.create
  create_succeeds tx user_uuid listed {x₁} {x₂} {x₃} rows once answered complete stock approved held
        r =
      let ids = parts_uuids parts in
      let o = new_order order_uuid user_uuid now (map as_item listed) in
      let unique : validate_unique_uuids ids ≡ ok tt =
        validate_unique_uuids-eq ids ∙ rw once refl in
      let whole : (length listed == length ids) ≡ true = ground (arith, complete) in
      let done = tx.commits (create_body db o) d _ x₃ _ (create_body-recorded db o d rows r x₃) in
      elim (Option-cases (tx.commit_fault d (recorded db o d rows) x₃)) [
        | inl works ↦
            let kept = rw works at done in
            rw (works, unique, answered, whole, items-ok listed stock, approved, held, kept) refl
        | inr (e, fails) ↦
            let lost = rw fails at done in
            rw (fails, unique, answered, whole, items-ok listed stock, approved, held, lost) refl
      ]
