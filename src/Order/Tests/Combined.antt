-- ===== src/Order/Tests/Combined.antt =====
-- The order service over the inventory at concrete tables of both.
mod Books
use mathlib.Core.List.Permᴰ
use rocket_factory.Prelude.{
  Bool, true, ℕ, String, ◌≡◌, ◌≢◌, ◌⊎◌, refl, Option, none, some, [], ◌∷◌, ok, arith, str_eq,
  if◌then◌else◌, TxManager, direct_tx,
}
use rocket_factory.Prelude.Unary.{unary}
use rocket_factory.Prelude.Int.{ℤ, pos}
use rocket_factory.Inventory.Errors
use rocket_factory.Inventory.Properties
use rocket_factory.Inventory.Part
use rocket_factory.Inventory.Record
use rocket_factory.Inventory.Record.{PartRecord, PartPropertiesRecord}
use rocket_factory.Inventory.Repository
use rocket_factory.Inventory.Repository.{Table}
use rocket_factory.Inventory.Service
use rocket_factory.Inventory.Compatibility
use rocket_factory.Inventory.Compatibility.Resolve
use rocket_factory.Inventory.Api
use rocket_factory.Order.Errors.{Error}
use rocket_factory.Order.Model.{items_uuids, pending_payment, assembled}
use rocket_factory.Order.Record.{OrderRecord}
use rocket_factory.Order.Repository.{Db, find_row}
use rocket_factory.Order.Repository.Rows.{restored}
use rocket_factory.Order.Service.{Externals, create, cancel, parts_uuids}
use rocket_factory.Order.Consumer.{ship_assembled_handler}
use rocket_factory.Order.Clients
use rocket_factory.Order.Clients.{inventory_error, uuids_to_strings}
use rocket_factory.Order.System.{Others, system}
use rocket_factory.Order.System.Booking.{
  Reserved, Released, Taken, create-Reserved, cancel-Released, ship_assembled_handler-Taken,
}
use rocket_factory.Order.Tests.{quiet_db, placed, pending, tables, empty, ship, event, row}
use rocket_factory.Order.Tests
use rocket_factory.Order.Tests.Answers.{rules}

abbrev unmarshal : String → Option PartPropertiesRecord
unmarshal s =
    if str_eq s "hull"
    then some (record {
      hull = some (record { strength = pos 50 });
      engine = none;
      shield = none;
      weapon = none;
    })
    else some (record {
      hull = none;
      engine = some (record { class = "C"; required_strength = pos 30 });
      shield = none;
      weapon = none;
    })

abbrev calm_db : Repository.Postgres
calm_db = record {
  select_fault = λ q t. none;
  get_fault = λ u t. none;
  update_fault = λ ps t. none;
  arrange = λ o rows. rows;
  arrange_perm = λ o rows. Permᴰ.refl rows;
}

abbrev part_row : ℕ → String → String → ℤ → ℤ → ℤ → PartRecord
part_row u part_type properties price stock taken = record {
  uuid = u;
  name = "";
  description = "";
  part_type = part_type;
  price = price;
  stock_quantity = stock;
  reserved = taken;
  properties = properties;
  created_at = pos 0;
}

abbrev parts : ℤ → ℤ → ℤ → Table
parts stock h e =
    part_row 1 "HULL" "hull" (pos 500) stock h
    ∷ part_row 2 "ENGINE" "engine" (pos 300) (pos 8) e
    ∷ []

abbrev others : Others (Unit {0})
others = record {
  pay_order = λ u m x. (ok 99, x);
  produce_order_paid = λ e x. (ok tt, x);
  orders_created_total = λ n x. x;
  orders_paid_total = λ n x. x;
  orders_revenue_total = λ n x. x;
}

abbrev inventory_tx : TxManager Errors.Error Table (Unit {0})
inventory_tx = direct_tx

-- Every caller is logged in.
abbrev pub everybody : Unit {0} → Bool
everybody w = true

abbrev tx : TxManager Error Db (Table × Unit {0})
tx = direct_tx

abbrev world : Externals (Table × Unit {0})
world = system unary rules unmarshal calm_db inventory_tx everybody others

-- What a run over both services computes with.
machinery : Unit {0}
unfolding Tests.machinery Clients.list_parts Clients.reserve_parts Clients.validate_compatibility
    Clients.release_parts Clients.commit_parts Api.list_parts Api.reserve_parts Api.release_parts
    Api.commit_parts Api.validate Service.list Service.reserve Service.release Service.commit
    Resolve.validate_compatibility Resolve.resolve_ship_slots Repository.list Repository.list_parts
    Repository.map_and_order Repository.build_list_query Record.part_properties_from_record
    Properties.new_hull_properties Properties.new_part_type Properties.new_engine_properties
    Properties.engine_class_is_valid Compatibility.collect_uuids
    Compatibility.validate_duplicate_uuids Compatibility.check_seen Compatibility.fill_slots
    Compatibility.by_uuid_from Compatibility.check Properties.can_support Properties.conflicts_with
    Repository.list_for_update Part.reserve Part.release Part.commit
    Repository.update_reserved_batch Repository.rows_affected Repository.update_rows
machinery = tt

create_run :
    create quiet_db world tx (some 5) 7 (pos 100) ship (empty, (parts (pos 10) (pos 0) (pos 0), tt))
    ≡ (ok placed, (tables pending, (parts (pos 10) (pos 1) (pos 1), tt)))
unfolding machinery
create_run = refl

create-Reserved_example :
    Reserved (parts_uuids ship) (parts (pos 10) (pos 0) (pos 0)) (parts (pos 10) (pos 1) (pos 1))
create-Reserved_example =
    create-Reserved unary rules unmarshal calm_db inventory_tx everybody quiet_db others empty
      (parts (pos 10) (pos 0) (pos 0)) tt (ground arith) tx (some 5) 7 (pos 100) ship create_run

abbrev cancelled_world : Db × (Table × Unit {0})
cancelled_world =
    (tables (row "CANCELLED" none none (some (pos 200))), (parts (pos 10) (pos 0) (pos 0), tt))

cancel_run :
    cancel quiet_db world tx (pos 200) 7 (tables pending, (parts (pos 10) (pos 1) (pos 1), tt))
    ≡ (ok tt, cancelled_world)
unfolding machinery
cancel_run = refl

cancel-Released_example :
    (r : OrderRecord) × (find_row 7 (pending ∷ []) ≡ some r)
    × (r.status ≡ pending_payment)
    × Released
        (items_uuids (restored quiet_db 7 (tables pending) r))
        (parts (pos 10) (pos 1) (pos 1))
        (parts (pos 10) (pos 0) (pos 0))
cancel-Released_example =
    cancel-Released unary rules unmarshal calm_db inventory_tx everybody quiet_db others
      (tables pending) (parts (pos 10) (pos 1) (pos 1)) tt (ground arith) tx (pos 200) 7
      cancelled_world cancel_run

abbrev paid_tables : Db
paid_tables = tables (row "PAID" (some 99) (some "SBP") (some (pos 200)))

abbrev taken_parts : Table
taken_parts =
    part_row 1 "HULL" "hull" (pos 500) (pos 9) (pos 0)
    ∷ part_row 2 "ENGINE" "engine" (pos 300) (pos 7) (pos 0)
    ∷ []

abbrev assembled_world : Db × (Table × Unit {0})
assembled_world =
    (tables (row "ASSEMBLED" (some 99) (some "SBP") (some (pos 300))), (taken_parts, tt))

assembled_run :
    ship_assembled_handler quiet_db world unary tx
      (pos 300)
      (some event)
      (paid_tables, (parts (pos 10) (pos 1) (pos 1), tt))
    ≡ (ok tt, assembled_world)
unfolding machinery
assembled_run = refl

ship_assembled_handler-Taken_example :
    ((unary.parse event.order_uuid ≡ none) × (taken_parts ≡ parts (pos 10) (pos 1) (pos 1)))
    ⊎ ((u : ℕ) × (r : OrderRecord) × (unary.parse event.order_uuid ≡ some u)
        × (find_row u paid_tables.orders ≡ some r)
        × (r.status ≡ assembled)
        × (taken_parts ≡ parts (pos 10) (pos 1) (pos 1)))
    ⊎ ((u : ℕ) × (r : OrderRecord) × (unary.parse event.order_uuid ≡ some u)
        × (find_row u paid_tables.orders ≡ some r)
        × (r.status ≢ assembled)
        × Taken
            (items_uuids (restored quiet_db u paid_tables r))
            (parts (pos 10) (pos 1) (pos 1))
            taken_parts)
ship_assembled_handler-Taken_example =
    ship_assembled_handler-Taken unary rules unmarshal calm_db inventory_tx everybody quiet_db
      others paid_tables (parts (pos 10) (pos 1) (pos 1)) tt (ground arith) tx (pos 300) event
      assembled_world assembled_run
