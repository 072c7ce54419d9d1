-- ===== src/Order/Tests.antt =====
-- The theorems on the order service at concrete tables, and runs of the model.
mod Answers
mod Rollbacks
mod Combined
mod Success
use mathlib.Core.List.Permᴰ
use rocket_factory.Prelude.{
  ℕ, String, ◌≡◌, ◌≢◌, ◌⊎◌, refl, Option, none, some, List, [], ◌∷◌, ok, err, TxManager, direct_tx,
  arith, Result,
}
use rocket_factory.Prelude.Unary.{unary}
use rocket_factory.Prelude.Int.{ℤ, pos, add64}
use rocket_factory.Order.Errors.{Error}
use rocket_factory.Order.Model.{
  Order, Part, OrderParts, OrderItem, ShipAssembledEvent, items_uuids, total_price, zero_order,
}
use rocket_factory.Order.Record.{
  OrderItemRecord, order_item_records_to_models, order_item_models_to_records,
}
use rocket_factory.Order.Repository.{
  Db, Row, Postgres, create_order, create_order_items, create_body, get_order, get_order_items,
  get_with_items, update, update_rows, rows_affected,
}
use rocket_factory.Order.Repository
use rocket_factory.Order.Service.{
  Externals, Captured, create, cancel, pay, validate_unique_uuids, item_of, pay_body, cancel_body,
}
use rocket_factory.Order.Service
use rocket_factory.Order.Service.Effects.{Cancels, Assembles, cancel_effect, ship_assembled_effect}
use rocket_factory.Order.Service.Paying.{Pays, pay_effect}
use rocket_factory.Order.Service.Placing.{create_effect, IsPlaced}
use rocket_factory.Order.Service.Lifecycle.{IsConsistent, in_pending}
use rocket_factory.Order.Service.Runs.{Step, creates, Reach, stay, then_step, Reach-IsConsistent}
use rocket_factory.Order.Consumer.{ship_assembled_handler, assembled_body}

abbrev pub quiet_db : Postgres
quiet_db = record {
  insert_order_fault = λ o d. none;
  insert_items_fault = λ o d. none;
  get_fault = λ u b d. none;
  items_fault = λ u d. none;
  update_fault = λ o d. none;
  timestamp = λ t. t;
  arrange = λ rows. rows;
  arrange_perm = λ rows. Permᴰ.refl rows;
}

abbrev hull : Part
hull = record {
  uuid = 1;
  part_type = "HULL";
  name = "Aluminium hull";
  price = pos 500;
  stock_quantity = pos 10;
}

abbrev engine : Part
engine = record {
  uuid = 2;
  part_type = "ENGINE";
  name = "Ion engine C";
  price = pos 300;
  stock_quantity = pos 8;
}

-- The world outside is the revenue so far.
abbrev pub elsewhere : Externals ℤ
elsewhere = record {
  inventory = record {
    list_parts = λ us x. (ok (hull ∷ engine ∷ []), x);
    reserve_parts = λ us x. (ok tt, x);
    release_parts = λ us x. (ok tt, x);
    commit_parts = λ us x. (ok tt, x);
    validate_compatibility = λ p x. (ok tt, x);
  };
  pay_order = λ u m x. (ok 99, x);
  produce_order_paid = λ e x. (ok tt, x);
  orders_created_total = λ n x. x;
  orders_paid_total = λ n x. x;
  orders_revenue_total = λ n x. n;
}

abbrev pub tx : TxManager Error Db ℤ
tx = direct_tx

abbrev pub pay_tx : TxManager Error Db (Captured × ℤ)
pay_tx = direct_tx

abbrev pub row : String → Option ℕ → Option String → Option ℤ → Row
row status t m at = record {
  order = record {
    uuid = 7;
    user_uuid = 5;
    status = status;
    transaction_uuid = t;
    payment_method = m;
    created_at = pos 100;
  };
  updated_at = at;
}

abbrev pub items : List OrderItemRecord
items =
    record { order_uuid = 7; part_uuid = 2; part_type = "ENGINE"; price = pos 300 }
    ∷ record { order_uuid = 7; part_uuid = 1; part_type = "HULL"; price = pos 500 }
    ∷ []

abbrev pub tables : Row → Db
tables r = record { orders = r ∷ []; items = items }

abbrev pub empty : Db
empty = record { orders = []; items = [] }

abbrev pub pending : Row
pending = row "PENDING_PAYMENT" none none none

-- What a run of the service computes with.
pub machinery : Unit {0}
unfolding create Service.validate_unique_uuids Service.unique_from item_of Repository.create
    create_body create_order create_order_items order_item_models_to_records cancel cancel_body pay
    pay_body Repository.get_for_update get_with_items get_order get_order_items
    order_item_records_to_models update update_rows rows_affected ship_assembled_handler
    assembled_body total_price items_uuids
machinery = tt

abbrev pub ship : OrderParts
ship = record { hull_uuid = 1; engine_uuid = 2; shield_uuid = none; weapon_uuid = none }

abbrev pub placed : Order
placed = record zero_order {
  uuid = 7;
  user_uuid = 5;
  items =
      record { uuid = 1; part_type = "HULL"; price = pos 500 }
      ∷ record { uuid = 2; part_type = "ENGINE"; price = pos 300 }
      ∷ [];
  status = "PENDING_PAYMENT";
  created_at = pos 100;
}

create_run :
    create quiet_db elsewhere tx (some 5) 7 (pos 100) ship (empty, pos 0)
    ≡ (ok placed, (tables pending, pos 0))
unfolding machinery
create_run = refl

create_effect_example :
    IsPlaced quiet_db elsewhere
      (some 5)
      7
      (pos 100)
      ship
      empty
      (pos 0)
      placed
      (tables pending, pos 0)
create_effect_example =
    create_effect quiet_db elsewhere tx (some 5) 7 (pos 100) ship empty (pos 0) create_run

pay_run :
    pay quiet_db elsewhere unary pay_tx (pos 200) 7 "SBP" (tables pending, pos 0)
    ≡ (ok 99, (tables (row "PAID" (some 99) (some "SBP") (some (pos 200))), pos 800))
unfolding machinery
pay_run = refl

cancel_run :
    cancel quiet_db elsewhere tx (pos 200) 7 (tables pending, pos 0)
    ≡ (ok tt, (tables (row "CANCELLED" none none (some (pos 200))), pos 0))
unfolding machinery
cancel_run = refl

abbrev pub event : ShipAssembledEvent
event = record {
  uuid = unary.to_string 7;
  order_uuid = unary.to_string 7;
  user_uuid = unary.to_string 5;
  build_time_sec = pos 10;
  assembled_at = pos 300;
}

assembled_run :
    ship_assembled_handler quiet_db elsewhere unary tx
      (pos 300)
      (some event)
      (tables (row "PAID" (some 99) (some "SBP") (some (pos 200))), pos 800)
    ≡ (ok tt, (tables (row "ASSEMBLED" (some 99) (some "SBP") (some (pos 300))), pos 800))
unfolding machinery
assembled_run = refl

empty-IsConsistent : IsConsistent empty
empty-IsConsistent = record { distinct = tt; owned = tt; staged = tt }

one_order : Reach quiet_db elsewhere unary tx pay_tx (empty, pos 0) (tables pending, pos 0)
unfolding machinery
one_order =
    then_step (empty, pos 0) (empty, pos 0) (tables pending, pos 0) (stay (empty, pos 0))
      (creates (some 5) 7 (pos 100) ship (empty, pos 0))

pay_effect_example :
    Pays quiet_db elsewhere unary
      (pos 200)
      7
      "SBP"
      (tables pending)
      (pos 0)
      99
      (tables (row "PAID" (some 99) (some "SBP") (some (pos 200))), pos 800)
pay_effect_example =
    pay_effect quiet_db elsewhere unary pay_tx (pos 200) 7 "SBP" (tables pending) (pos 0) pay_run

cancel_effect_example :
    Cancels quiet_db elsewhere
      (pos 200)
      7
      (tables pending)
      (pos 0)
      (tables (row "CANCELLED" none none (some (pos 200))), pos 0)
cancel_effect_example =
    cancel_effect quiet_db elsewhere tx (pos 200) 7 (tables pending) (pos 0)
      (tables (row "CANCELLED" none none (some (pos 200))), pos 0) cancel_run

abbrev paid_tables : Db
paid_tables = tables (row "PAID" (some 99) (some "SBP") (some (pos 200)))

abbrev assembled_world : Db × ℤ
assembled_world = (tables (row "ASSEMBLED" (some 99) (some "SBP") (some (pos 300))), pos 800)

ship_assembled_effect_example :
    ((unary.parse event.order_uuid ≡ none) × (assembled_world ≡ (paid_tables, pos 800)))
    ⊎ ((u : ℕ) × (unary.parse event.order_uuid ≡ some u)
        × Assembles quiet_db elsewhere (pos 300) u paid_tables (pos 800) assembled_world)
ship_assembled_effect_example =
    ship_assembled_effect quiet_db elsewhere unary tx (pos 300) event paid_tables (pos 800)
      assembled_world assembled_run

Reach-IsConsistent_example : IsConsistent (tables pending)
Reach-IsConsistent_example =
    Reach-IsConsistent quiet_db elsewhere unary tx pay_tx (empty, pos 0) (tables pending, pos 0)
      one_order empty-IsConsistent
