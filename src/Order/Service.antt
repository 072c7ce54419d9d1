-- ===== src/Order/Service.antt =====
-- The order service (order/internal/service/order) on the repository, the transaction manager and
-- the clients of the other services.
pub mod Effects
pub mod Paying
pub mod Lifecycle
pub mod Runs
pub mod Success
pub mod Placeable
pub mod Placing
use rocket_factory.Prelude.{
  ℕ, String, Bool, true, false, not, Option, none, some, List, [], ◌∷◌, length, map_result, ◌==◌,
  contains, str_eq, if◌then◌else◌, Result, ok, err, panic, TxManager, Body, UuidCodec, nil_uuid,
}
use rocket_factory.Prelude.Int.{ℤ, pos, leb_ℤ}
use rocket_factory.Prelude.Action.{Action, lift, pure, outside, ◌>>=◌, ◌>>◌}
use rocket_factory.Order.Errors.{
  Error, invalid_uuid, invalid_payment_method, invalid_order_status, part_not_found, out_of_stock,
  unauthorized,
}
use rocket_factory.Order.Model.{
  Order, OrderItem, Part, OrderParts, OrderPaidEvent, ShipAssembledEvent, items_uuids, total_price,
  pending_payment, paid, cancelled, assembled, method_unspecified, zero_order,
}
use rocket_factory.Order.Repository
use rocket_factory.Order.Repository.{Db, Postgres, get_for_update, update}

-- The interfaces of deps.go. `X` is the world outside the service's own database.
pub record InventoryClient (X : Type 0) : Type 0 where
  pub list_parts : List ℕ → Action Error X (List Part)
  pub reserve_parts : List ℕ → Action Error X (Unit {0})
  pub release_parts : List ℕ → Action Error X (Unit {0})
  pub commit_parts : List ℕ → Action Error X (Unit {0})
  pub validate_compatibility : OrderParts → Action Error X (Unit {0})

pub record Externals (X : Type 0) : Type 0 where
  pub inventory : InventoryClient X
  pub pay_order : ℕ → String → Action Error X ℕ
  pub produce_order_paid : OrderPaidEvent → Action Error X (Unit {0})
  -- The counters of metrics.go: orders created, orders paid, and revenue.
  pub orders_created_total : ℤ → X → X
  pub orders_paid_total : ℤ → X → X
  pub orders_revenue_total : ℤ → X → X

-- The loop of validateUniqueUUIDs, with the identifiers seen so far.
unfoldable pub unique_from : List ℕ → List ℕ → Result Error (Unit {0})
unique_from seen [] = ok tt
unique_from seen (id ∷ ids) =
    let skip = unique_from seen ids in
    let rest = unique_from (id ∷ seen) ids in
    if id == nil_uuid then skip else if contains id seen then err invalid_uuid else rest

-- validateUniqueUUIDs
unfoldable pub validate_unique_uuids : List ℕ → Result Error (Unit {0})
unfolding unique_from
validate_unique_uuids = unique_from []

abbrev pub with_optional : Option ℕ → List ℕ → List ℕ
with_optional none us = us
with_optional (some u) us = u ∷ us

-- `partsUuids`
abbrev pub parts_uuids : OrderParts → List ℕ
parts_uuids p =
    p.hull_uuid ∷ p.engine_uuid ∷ with_optional p.shield_uuid (with_optional p.weapon_uuid [])

-- A round of the loop over the parts: the item of a part that is in stock.
unfoldable pub item_of : Part → Result Error OrderItem
item_of p =
    if leb_ℤ p.stock_quantity (pos 0)
    then err out_of_stock
    else ok (record { uuid = p.uuid; part_type = p.part_type; price = p.price })

abbrev pub user_of : Option ℕ → Result Error ℕ
user_of none = err unauthorized
user_of (some u) = ok u

abbrev pub same_length : {A B : Type 0} → List A → List B → Result Error (Unit {0})
same_length xs ys = if not (length xs == length ys) then err part_not_found else ok tt

abbrev pub is_pending : Order → Result Error (Unit {0})
is_pending o = if not (str_eq o.status pending_payment) then err invalid_order_status else ok tt

-- The variables of Pay that its closure assigns; they are read only after it succeeded.
abbrev pub Captured : Type 0
Captured = ℕ × Order

abbrev pub paid_order : Order → ℕ → String → Order
paid_order order transaction_uuid payment_method = record order {
  status = paid;
  transaction_uuid = some transaction_uuid;
  payment_method = some payment_method;
}

-- The event for an order that was paid.
abbrev pub order_paid : UuidCodec → Order → OrderPaidEvent
order_paid codec order = record {
  uuid = codec.to_string order.uuid;
  order_uuid = codec.to_string order.uuid;
  user_uuid = codec.to_string order.user_uuid;
}

-- The order that Create writes and returns.
abbrev pub new_order : ℕ → ℕ → ℤ → List OrderItem → Order
new_order order_uuid user_uuid now order_items = record zero_order {
  uuid = order_uuid;
  user_uuid = user_uuid;
  items = order_items;
  status = pending_payment;
  created_at = now;
}

module _ (db : Postgres) {X : Type 0} (ext : Externals X) where
  abbrev count_created : Order → Db × X → Result Error Order × (Db × X)
  count_created o (d, x) = (ok o, (d, ext.orders_created_total (pos 1) x))

  -- Create. The user of the context, the identifier of `uuid.New()` and the time are arguments.
  unfoldable pub create :
      TxManager Error Db X → Option ℕ → ℕ → ℤ → OrderParts → Action Error (Db × X) Order
  create tx user order_uuid now order_parts = do
    user_uuid ← lift (user_of user)
    lift (validate_unique_uuids (parts_uuids order_parts))
    parts ← outside (ext.inventory.list_parts (parts_uuids order_parts))
    lift (same_length parts (parts_uuids order_parts))
    order_items ← lift (map_result item_of parts)
    outside (ext.inventory.validate_compatibility order_parts)
    outside (ext.inventory.reserve_parts (parts_uuids order_parts))
    Repository.create db tx (new_order order_uuid user_uuid now order_items)
    count_created (new_order order_uuid user_uuid now order_items)

  -- Get
  unfoldable pub get : ℕ → Action Error (Db × X) Order
  get uuid = Repository.get db uuid

  -- The closure of Cancel.
  unfoldable pub cancel_body : ℤ → ℕ → Body Error Db X
  cancel_body now order_uuid = do
    order ← get_for_update db order_uuid
    lift (is_pending order)
    outside (ext.inventory.release_parts (items_uuids order))
    update db now (record order { status = cancelled })

  -- Cancel
  unfoldable pub cancel : TxManager Error Db X → ℤ → ℕ → Action Error (Db × X) (Unit {0})
  cancel tx now order_uuid = tx.run (cancel_body now order_uuid)

  abbrev set_transaction : ℕ → Action Error (Db × (Captured × X)) (Unit {0})
  set_transaction tx_uuid (d, ((t, o), x)) = (ok tt, (d, ((tx_uuid, o), x)))

  abbrev set_order : Order → Action Error (Db × (Captured × X)) (Unit {0})
  set_order order (d, ((t, o), x)) = (ok tt, (d, ((t, order), x)))

  module _ (codec : UuidCodec) where
    -- The closure of Pay.
    unfoldable pub pay_body : ℤ → ℕ → String → Body Error Db (Captured × X)
    pay_body now order_uuid payment_method = do
      order ← get_for_update db order_uuid
      lift (is_pending order)
      transaction_uuid ← outside (outside (ext.pay_order order_uuid payment_method))
      set_transaction transaction_uuid
      set_order (paid_order order transaction_uuid payment_method)
      update db now (paid_order order transaction_uuid payment_method)
      outside (outside (ext.produce_order_paid (order_paid codec order)))

    -- What Pay does after its transaction.
    abbrev pub finish_pay :
        Result Error (Unit {0}) × (Db × (Captured × X)) → Result Error ℕ × (Db × X)
    finish_pay (ok u, (d, ((t, o), x))) =
        (ok t, (d, ext.orders_revenue_total (total_price o) (ext.orders_paid_total (pos 1) x)))
    finish_pay (err e, (d, (c, x))) = (err e, (d, x))
    finish_pay (panic, (d, (c, x))) = (panic, (d, x))

    -- Pay
    unfoldable pub pay :
        TxManager Error Db (Captured × X) → ℤ → ℕ → String → Action Error (Db × X) ℕ
    pay tx now order_uuid payment_method (d, x) =
        if str_eq payment_method method_unspecified
        then (err invalid_payment_method, (d, x))
        else finish_pay
            (tx.run (pay_body now order_uuid payment_method) (d, ((nil_uuid, zero_order), x)))
