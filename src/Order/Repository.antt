-- ===== src/Order/Repository.antt =====
-- The orders repository (order/internal/repository/order) on the tables `orders` and `order_items`,
-- with the keys that migrations/order declares.
pub mod Rows
pub mod Creation
use mathlib.Core.List.{Permᴰ}
use rocket_factory.Prelude.{
  ℕ, suc, String, Bool, true, false, Option, none, some, List, [], ◌∷◌, map, filter_by, ◌==◌, ◌||◌,
  ◌&&◌, if◌then◌else◌, Result, ok, err, length, TxManager, Body,
}
use rocket_factory.Prelude.Int.{ℤ}
use rocket_factory.Prelude.Action.{Action, lift, fail_if, pure, ◌>>=◌, ◌>>◌}
use rocket_factory.Order.Errors.{Error, order_not_found, other}
use rocket_factory.Order.Model.{Order, OrderItem}
use rocket_factory.Order.Record.{
  OrderRecord, OrderItemRecord, order_record_to_model, order_item_models_to_records,
  order_item_records_to_models,
}

-- A row of `orders`; NULL is `none`.
pub record Row : Type 0 where
  pub order : OrderRecord
  pub updated_at : Option ℤ

pub record Db : Type 0 where
  pub orders : List Row
  pub items : List OrderItemRecord

-- What PostgreSQL may do: fail a statement, which may depend on its arguments and on the tables,
-- return the rows of a SELECT without ORDER BY in any order, and keep only a part of an instant in a
-- column of the type TIMESTAMP, which drops what is finer than a microsecond, and the zone.
pub record Postgres : Type 0 where
  pub insert_order_fault : Order → Db → Option Error
  pub insert_items_fault : Order → Db → Option Error
  pub get_fault : ℕ → Bool → Db → Option Error
  pub items_fault : ℕ → Db → Option Error
  pub update_fault : Order → Db → Option Error
  pub timestamp : ℤ → ℤ
  pub arrange : List OrderItemRecord → List OrderItemRecord
  pub arrange_perm : (rows : List OrderItemRecord) → Permᴰ (arrange rows) rows

-- The row of a key.
abbrev pub find_row : ℕ → List Row → Option OrderRecord
find_row u [] = none
find_row u (r ∷ rs) = if u == r.order.uuid then some r.order else find_row u rs

abbrev pub has_row : ℕ → List Row → Bool
has_row u [] = false
has_row u (r ∷ rs) = u == r.order.uuid || has_row u rs

-- Whether a row with the primary key (order_uuid, part_uuid) is there.
abbrev pub has_item : OrderItemRecord → List OrderItemRecord → Bool
has_item i [] = false
has_item i (j ∷ js) = (i.order_uuid == j.order_uuid && i.part_uuid == j.part_uuid) || has_item i js

-- The rows that an INSERT of several rows leaves, or none where a key is taken or an order missing.
abbrev pub insert_items :
    List Row → List OrderItemRecord → List OrderItemRecord → Option (List OrderItemRecord)
insert_items rows [] items = some items
insert_items rows (i ∷ is) items =
    let rest = insert_items rows is (i ∷ items) in
    if has_item i items then none else if has_row i.order_uuid rows then rest else none

-- The columns that createOrder names; the others are NULL. `timestamp` is what a column of the type
-- TIMESTAMP keeps of an instant.
abbrev pub new_row : (ℤ → ℤ) → Order → Row
new_row timestamp o = record {
  order = record {
    uuid = o.uuid;
    user_uuid = o.user_uuid;
    status = o.status;
    transaction_uuid = none;
    payment_method = none;
    created_at = timestamp o.created_at;
  };
  updated_at = none;
}

-- The columns that Update sets.
abbrev pub set_row : ℤ → Order → Row → Row
set_row now o r = record {
  order = record r.order {
    status = o.status;
    transaction_uuid = o.transaction_uuid;
    payment_method = o.payment_method;
  };
  updated_at = some now;
}

-- `UPDATE orders SET … WHERE uuid = $5`
unfoldable pub update_rows : ℤ → Order → List Row → List Row
update_rows now o [] = []
update_rows now o (r ∷ rs) =
    (if o.uuid == r.order.uuid then set_row now o r else r) ∷ update_rows now o rs

-- RowsAffected
unfoldable pub rows_affected : Order → List Row → ℕ
rows_affected o [] = 0
rows_affected o (r ∷ rs) =
    let rest = rows_affected o rs in if o.uuid == r.order.uuid then suc rest else rest

-- The rows of one order, for `WHERE order_uuid = $1`.
abbrev pub items_of : ℕ → List OrderItemRecord → List OrderItemRecord
items_of u = filter_by (λ i. i.order_uuid == u)

-- What Scan gives, and the answer of the callers to pgx.ErrNoRows.
abbrev pub scan : Option OrderRecord → Result Error Order
scan none = err order_not_found
scan (some r) = ok (order_record_to_model r)

module _ (db : Postgres) {X : Type 0} where
  abbrev pub insert_order : Order → Action Error (Db × X) (Unit {0})
  insert_order o (d, x) =
      if has_row o.uuid d.orders
      then (err other, (d, x))
      else (ok tt, (record d { orders = new_row db.timestamp o ∷ d.orders }, x))

  -- createOrder
  unfoldable pub create_order : Order → Action Error (Db × X) (Unit {0})
  create_order o (d, x) = (fail_if (db.insert_order_fault o d) >> insert_order o) (d, x)

  abbrev pub put_items : Db → Option (List OrderItemRecord) → X → Result Error (Unit {0}) × (Db × X)
  put_items d none x = (err other, (d, x))
  put_items d (some items) x = (ok tt, (record d { items = items }, x))

  abbrev pub insert_order_items : Order → Action Error (Db × X) (Unit {0})
  insert_order_items o (d, x) =
      put_items d (insert_items d.orders (order_item_models_to_records o.uuid o.items) d.items) x

  -- createOrderItems
  unfoldable pub create_order_items : Order → Action Error (Db × X) (Unit {0})
  create_order_items o (d, x) =
      if length o.items == 0
      then (ok tt, (d, x))
      else (fail_if (db.insert_items_fault o d) >> insert_order_items o) (d, x)

  -- The closure of Create.
  unfoldable pub create_body : Order → Body Error Db X
  create_body o = create_order o >> create_order_items o

  -- Create
  unfoldable pub create : TxManager Error Db X → Order → Action Error (Db × X) (Unit {0})
  create tx o = tx.run (create_body o)

  -- getOrder and getOrderForUpdate
  unfoldable pub get_order : Bool → ℕ → Action Error (Db × X) Order
  get_order for_update uuid (d, x) =
      (fail_if (db.get_fault uuid for_update d) >> lift (scan (find_row uuid d.orders))) (d, x)

  -- getOrderItems
  unfoldable pub get_order_items : ℕ → Action Error (Db × X) (List OrderItem)
  get_order_items uuid (d, x) =
      (fail_if (db.items_fault uuid d)
          >> pure (order_item_records_to_models (db.arrange (items_of uuid d.items))))
        (d, x)

  unfoldable pub get_with_items : Bool → ℕ → Action Error (Db × X) Order
  get_with_items for_update uuid = do
    order ← get_order for_update uuid
    order_items ← get_order_items uuid
    pure (record order { items = order_items })

  -- Get
  unfoldable pub get : ℕ → Action Error (Db × X) Order
  get = get_with_items false

  -- GetForUpdate
  unfoldable pub get_for_update : ℕ → Action Error (Db × X) Order
  get_for_update = get_with_items true

  abbrev pub update_order : ℤ → Order → Action Error (Db × X) (Unit {0})
  update_order now o (d, x) =
      if rows_affected o d.orders == 0
      then (err order_not_found, (d, x))
      else (ok tt, (record d { orders = update_rows now o d.orders }, x))

  -- Update, at the given time.
  unfoldable pub update : ℤ → Order → Action Error (Db × X) (Unit {0})
  update now o (d, x) = (fail_if (db.update_fault o d) >> update_order (db.timestamp now) o) (d, x)
