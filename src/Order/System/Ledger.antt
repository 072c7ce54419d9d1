-- ===== src/Order/System/Ledger.antt =====
-- Runs of the order service over the inventory's tables: the calls that its users and its queue make,
-- one after the other (order/internal/service/order, order/internal/consumer/assembly_consumer).
pub mod Calls
pub mod Balanced
use rocket_factory.Prelude.{
  Bool, ℕ, ◌+◌, String, ◌≡◌, refl, sym, ◌∙◌, ap, subst, true, contains, ◌⊎◌, inl, inr, Option, some,
  List, [], ◌∷◌, All, All-map, All-map₂, map, ok, arith, UuidCodec, TxManager,
}
use rocket_factory.Prelude.Int.{ℤ, pos, ◌+ℤ◌, ◌≤ℤ◌, +ℤ_parts}
use rocket_factory.Inventory.Errors
use rocket_factory.Inventory.Record.{PartPropertiesRecord}
use rocket_factory.Inventory.Repository
use rocket_factory.Inventory.Repository.{Table}
use rocket_factory.Inventory.Service.Rows.{IsStockedTable}
use rocket_factory.Order.Errors.{Error}
use rocket_factory.Order.Model.{
  Order, Part, OrderParts, ShipAssembledEvent, items_uuids, paid, cancelled, assembled,
}
use rocket_factory.Order.Record.{OrderRecord, order_item_models_to_records}
use rocket_factory.Order.Consumer.{ship_assembled_handler}
use rocket_factory.Order.Repository.{Db, Postgres, find_row, insert_items, new_row}
use rocket_factory.Order.Repository.Rows.{restored, find_row-uuid}
use rocket_factory.Order.Service.{Externals, Captured, create, cancel, pay, parts_uuids, paid_order}
use rocket_factory.Order.Service.Effects.{cancel_effect, ship_assembled_effect}
use rocket_factory.Order.Service.Paying.{pay_effect}
use rocket_factory.Order.Service.Placing.{create_effect, as_item}
use rocket_factory.Order.Clients.Paths.{StatusRules}
use rocket_factory.Order.System.{Others, system}
use rocket_factory.Order.System.Booking.{
  Reserved, create-Reserved, release_parts-Released, commit_parts-Taken,
}
use rocket_factory.Order.System.Listing.{list_parts-uuids}
use rocket_factory.Order.System.Announced.{
  was_paid, WasPaid, was_paid-cases, All-contains, WasPaid-new_row, WasPaid-update_rows,
  WasPaid-written, written-WasPaid,
}
use rocket_factory.Order.System.Accounts.{IsBalanced, units_of, is_open, is_assembled}
use rocket_factory.Order.System.Balance.{
  inserted-IsBalanced, paid-IsBalanced, cancelled-IsBalanced, assembled-IsBalanced,
}

-- The tables of the order service, that of the inventory, and the rest of the world.
abbrev pub World : Type 0 → Type 0
World Y = Db × (Table × Y)

-- The announced orders were paid.
abbrev pub Announced : {Y : Type 0} → World Y → List ℕ → Type 0
Announced w = All (WasPaid w.0.orders)

-- The accounts of the two services are balanced.
abbrev pub Fits : {Y : Type 0} → (ℕ → ℤ) → World Y → Type 0
Fits supply w = IsBalanced supply w.0 w.1.0

module _ (codec : UuidCodec) (rules : StatusRules)
    (unmarshal : String → Option PartPropertiesRecord) (inventory_db : Repository.Postgres)
    {Y : Type 0} (inventory_tx : TxManager Errors.Error Table Y) (admits : Y → Bool) (db : Postgres)
    (others : Others Y) where
  abbrev pub outside_world : Externals (Table × Y)
  outside_world = system codec rules unmarshal inventory_db inventory_tx admits others

  -- A call that ends without an error, with the orders that were announced as paid before and after
  -- it. A ShipAssembled event names an order that was announced. Whatever else the world does leaves
  -- the two databases alone.
  pub data Step (w w' : World Y) : List ℕ → List ℕ → Type 0 where
    placing :
        (sent : List ℕ)
        → (tx : TxManager Error Db (Table × Y)) → (user : Option ℕ) → (order_uuid : ℕ) → (now : ℤ)
        → (parts : OrderParts) → (o : Order)
        → create db outside_world tx user order_uuid now parts w ≡ (ok o, w')
        → Step w w' sent sent
    paying :
        (sent : List ℕ)
        → (tx : TxManager Error Db (Captured × (Table × Y))) → (now : ℤ) → (u : ℕ)
        → (method : String) → (t : ℕ) → pay db outside_world codec tx now u method w ≡ (ok t, w')
        → Step w w' sent (u ∷ sent)
    cancelling :
        (sent : List ℕ)
        → (tx : TxManager Error Db (Table × Y)) → (now : ℤ) → (u : ℕ)
        → cancel db outside_world tx now u w ≡ (ok tt, w')
        → Step w w' sent sent
    delivering :
        (sent : List ℕ)
        → (tx : TxManager Error Db (Table × Y)) → (now : ℤ) → (event : ShipAssembledEvent) → (u : ℕ)
        → codec.parse event.order_uuid ≡ some u
        → contains u sent ≡ true
        → ship_assembled_handler db outside_world codec tx now (some event) w ≡ (ok tt, w')
        → Step w w' sent sent
    elsewhere : (sent : List ℕ) → w.0 ≡ w'.0 → w.1.0 ≡ w'.1.0 → Step w w' sent sent

  -- Any number of such calls.
  pub data Run (w : World Y) (sent : List ℕ) : World Y → List ℕ → Type 0 where
    start : Run w sent w sent
    next :
        {v w' : World Y} {sent_v sent' : List ℕ}
        → Run w sent v sent_v
        → Step v w' sent_v sent'
        → Run w sent w' sent'
