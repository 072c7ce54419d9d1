-- ===== src/Order/Repository/Creation.antt =====
-- What Create of the orders repository writes (order/internal/repository/order/create.go).
use rocket_factory.Prelude.{
  ◌≡◌, refl, sym, ap, subst, Bool-cases, true, false, inl, inr, Option, none, some, List, [], ◌∷◌,
  All, length, ◌==◌, ok, arith,
}
use rocket_factory.Prelude.Action
use rocket_factory.Order.Model.{Order}
use rocket_factory.Order.Record.{OrderItemRecord, order_item_models_to_records}
use rocket_factory.Order.Repository.{
  Row, Db, Postgres, has_row, has_item, insert_items, new_row, insert_order, create_order,
  put_items, insert_order_items, create_order_items, create_body,
}

-- Every item belongs to an order of the table.
abbrev pub HasOrder : List Row → OrderItemRecord → Type 0
HasOrder rows i = has_row i.order_uuid rows ≡ true

insert_items-cons :
    (rows : List Row) (i : OrderItemRecord) (is items : List OrderItemRecord)
    {items' : List OrderItemRecord}
    → insert_items rows (i ∷ is) items ≡ some items'
    → (has_item i items ≡ false)
      × HasOrder rows i
      × (insert_items rows is (i ∷ items) ≡ some items')
insert_items-cons rows i is items h = ground (arith, h)

pub nil_of_length : {A : Type 0} (xs : List A) → (length xs == 0) ≡ true → xs ≡ []
nil_of_length [] h = refl
nil_of_length (x ∷ xs) h = ground (arith, h)

pub All-insert_items :
    (rows : List Row) (is items : List OrderItemRecord) {items' : List OrderItemRecord}
    → insert_items rows is items ≡ some items'
    → All (HasOrder rows) items
    → All (HasOrder rows) items'
All-insert_items rows [] items {items' = items'} h all =
    let same : items ≡ items' = cc in subst (All (HasOrder rows)) same all
All-insert_items rows (i ∷ is) items {items' = items'} h all =
    let (fresh, belongs, rest) = insert_items-cons rows i is items h in
    All-insert_items rows is (i ∷ items) {items' = items'} rest (belongs, all)

pub All-HasOrder_new :
    (row : Row) (rows : List Row) (items : List OrderItemRecord)
    → All (HasOrder rows) items
    → All (HasOrder (row ∷ rows)) items
All-HasOrder_new row rows [] all = tt
All-HasOrder_new row rows (i ∷ items) all =
    (ground (arith, all.0), All-HasOrder_new row rows items (all.1))

module _ (db : Postgres) {X : Type 0} (o : Order) (d : Db) (x : X) where
  put_items-eq-ok :
      (e : Db) (inserted : Option (List OrderItemRecord)) {w' : Db × X}
      → put_items db e inserted x ≡ (ok tt, w')
      → (items : List OrderItemRecord) × (inserted ≡ some items)
        × (w' ≡ (record e { items = items }, x))
  put_items-eq-ok e none h = cc
  put_items-eq-ok e (some items) h = (items, refl, sym (ap (λ v. v.1) h))

  create_order_items-eq-ok :
      (e : Db) {w' : Db × X}
      → create_order_items db o (e, x) ≡ (ok tt, w')
      → (items : List OrderItemRecord) × (insert_items e.orders
            (order_item_models_to_records o.uuid o.items)
            e.items
          ≡ some items)
        × (w' ≡ (record e { items = items }, x))
  unfolding create_order_items order_item_models_to_records
  create_order_items-eq-ok e {w' = w'} h = elim (Bool-cases (length o.items == 0)) [
    | inl nothing ↦
        let h' = rw nothing at h in
        (
          e.items,
          ap (λ is. insert_items e.orders (order_item_models_to_records o.uuid is) e.items)
              (nil_of_length o.items nothing),
          sym (ap (λ v. v.1) h'),
        )
    | inr some_items ↦
        put_items-eq-ok e
          (insert_items e.orders (order_item_models_to_records o.uuid o.items) e.items)
          (Action.after_fault (db.insert_items_fault o e) (insert_order_items db o) (e, x) w'
            (rw some_items at h))
  ]

  create_order-eq-ok :
      {w' : Db × X}
      → create_order db o (d, x) ≡ (ok tt, w')
      → (has_row o.uuid d.orders ≡ false)
        × (w' ≡ (record d { orders = new_row db.timestamp o ∷ d.orders }, x))
  unfolding create_order
  create_order-eq-ok {w' = w'} h =
      let done = Action.after_fault (db.insert_order_fault o d) (insert_order db o) (d, x) w' h in
      elim (Bool-cases (has_row o.uuid d.orders)) [
        | inl taken ↦ let h' = rw taken at done in cc
        | inr free ↦ let h' = rw free at done in (free, sym (ap (λ v. v.1) h'))
      ]

  -- Create without error: the key was free, and both tables have the rows of the order now.
  pub create_body-eq-ok :
      {w' : Db × X}
      → create_body db o (d, x) ≡ (ok tt, w')
      → (items : List OrderItemRecord) × (has_row o.uuid d.orders ≡ false)
        × (insert_items
              (new_row db.timestamp o ∷ d.orders)
              (order_item_models_to_records o.uuid o.items)
              d.items
            ≡ some items)
        × (w' ≡ (record { orders = new_row db.timestamp o ∷ d.orders; items = items }, x))
  unfolding create_body
  create_body-eq-ok {w' = w'} h =
      let (_, first, second) =
        Action.>>=-eq-ok (create_order db o) (λ _. create_order_items db o) (d, x) w' h in
      let (free, world) = create_order-eq-ok (ap (λ r. (r, (create_order db o (d, x)).1)) first) in
      let (items, inserted, same) =
        create_order_items-eq-ok (record d { orders = new_row db.timestamp o ∷ d.orders })
          (rw world at second) in
      (items, free, inserted, same)
