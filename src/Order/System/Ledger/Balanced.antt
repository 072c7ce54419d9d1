-- ===== src/Order/System/Ledger/Balanced.antt =====
-- The accounts of the two services over whole runs (order/internal/service/order,
-- order/internal/consumer/assembly_consumer).
use rocket_factory.Prelude.{
  Bool, ℕ, ◌+◌, String, ◌≡◌, subst, Option, List, [], All, All-map, All-map₂, arith, UuidCodec,
  TxManager,
}
use rocket_factory.Prelude.Int.{ℤ, pos, ◌+ℤ◌, ◌≤ℤ◌, +ℤ_parts}
use rocket_factory.Inventory.Errors
use rocket_factory.Inventory.Record.{PartPropertiesRecord}
use rocket_factory.Inventory.Repository
use rocket_factory.Inventory.Repository.{Table}
use rocket_factory.Inventory.Service.Rows.{IsStockedTable}
use rocket_factory.Order.Repository.{Postgres}
use rocket_factory.Order.Clients.Paths.{StatusRules}
use rocket_factory.Order.System.{Others}
use rocket_factory.Order.System.Announced.{WasPaid}
use rocket_factory.Order.System.Accounts.{IsBalanced, units_of, is_open, is_assembled}
use rocket_factory.Order.System.Ledger.Calls.{
  create-Announced, pay-Announced, cancel-Announced, deliver-Announced, create-IsBalanced,
  pay-IsBalanced, cancel-IsBalanced, deliver-IsBalanced,
}
use rocket_factory.Order.System.Ledger.{
  Fits, Step, placing, paying, cancelling, delivering, elsewhere, Run, start, next, Announced,
  World,
}

module _ (codec : UuidCodec) (rules : StatusRules)
    (unmarshal : String → Option PartPropertiesRecord) (inventory_db : Repository.Postgres)
    {Y : Type 0} (inventory_tx : TxManager Errors.Error Table Y) (admits : Y → Bool) (db : Postgres)
    (others : Others Y) where
  module _ (supply : ℕ → ℤ) where
    step-IsBalanced :
        (w w' : World Y) {sent sent' : List ℕ}
        → Step codec rules unmarshal inventory_db inventory_tx admits db others w w' sent sent'
        → Announced w sent
        → Fits supply w
        → Announced w' sent' × Fits supply w'
    step-IsBalanced w w' (placing sent tx user order_uuid now parts o h) all b = (
      create-Announced codec rules unmarshal inventory_db inventory_tx admits db others tx user
          order_uuid now parts sent w h all,
      create-IsBalanced codec rules unmarshal inventory_db inventory_tx admits db others supply tx
          user order_uuid now parts w.0 w.1.0 w.1.1 h b,
    )
    step-IsBalanced w w' (paying sent tx now u method t h) all b = (
      pay-Announced codec rules unmarshal inventory_db inventory_tx admits db others tx now u method
          sent w h all,
      pay-IsBalanced codec rules unmarshal inventory_db inventory_tx admits db others supply tx now
          u method w.0 w.1.0 w.1.1 h b,
    )
    step-IsBalanced w w' (cancelling sent tx now u h) all b = (
      cancel-Announced codec rules unmarshal inventory_db inventory_tx admits db others tx now u
          sent w h all,
      cancel-IsBalanced codec rules unmarshal inventory_db inventory_tx admits db others supply tx
          now u w.0 w.1.0 w.1.1 h b,
    )
    step-IsBalanced w w' (delivering sent tx now event u named told h) all b = (
      deliver-Announced codec rules unmarshal inventory_db inventory_tx admits db others tx now
          event sent w h all,
      deliver-IsBalanced codec rules unmarshal inventory_db inventory_tx admits db others supply tx
          now event w.0 w.1.0 w.1.1 sent u named told all h b,
    )
    step-IsBalanced w w' (elsewhere sent orders table) all b = (
      subst (λ d. All (WasPaid d.orders) sent) orders all,
      subst (λ t. IsBalanced supply w'.0 t) table (subst (λ d. IsBalanced supply d w.1.0) orders b),
    )

    -- Over every run of calls that end without an error, in any order and with any identifiers, where
    -- a ShipAssembled event names an order that was announced as paid: the announced orders are paid
    -- or assembled, the inventory has reserved, at each part, exactly one unit for each item of a
    -- pending or paid order, and its stock is what was supplied less one unit for each item of an
    -- assembled order, if that held before.
    pub Run-IsBalanced :
        (w : World Y) {sent : List ℕ} (w' : World Y) {sent' : List ℕ}
        → Run codec rules unmarshal inventory_db inventory_tx admits db others w sent w' sent'
        → Announced w sent
        → Fits supply w
        → Announced w' sent' × Fits supply w'
    Run-IsBalanced w w' start all b = (all, b)
    Run-IsBalanced w w' (next {v} run step) all b =
        let (all_v, b_v) = Run-IsBalanced w v run all b in step-IsBalanced v w' step all_v b_v

    opened-IsBalanced :
        (t : Table)
        → IsStockedTable t
        → All (λ r. (r.reserved ≡ pos 0) × (r.stock_quantity ≡ supply r.uuid)) t
        → IsBalanced supply (record { orders = []; items = [] }) t
    unfolding ◌+ℤ◌
    opened-IsBalanced t stocked unsold = record {
      owned = tt;
      itemed = tt;
      stocked = stocked;
      counted = All-map (λ r (reserved, stock). (reserved, rw (← stock) (ground arith))) t unsold;
    }

    -- Over every run of calls that end without an error, from no orders and a stocked inventory where
    -- nothing is reserved, the pending, paid and assembled orders together never have more items of a
    -- part than the inventory was supplied with, where a ShipAssembled event names an order that was
    -- announced as paid.
    pub Run-supply :
        (t : Table) (y : Y) (w' : World Y) {sent : List ℕ}
        → IsStockedTable t
        → All (λ r. (r.reserved ≡ pos 0) × (r.stock_quantity ≡ supply r.uuid)) t
        → Run codec rules unmarshal inventory_db inventory_tx admits db others
            (record { orders = []; items = [] }, (t, y))
            []
            w'
            sent
        → All
            (λ r.
              pos (units_of is_open r.uuid w'.0 + units_of is_assembled r.uuid w'.0)
              ≤ℤ supply r.uuid)
            w'.1.0
    Run-supply t y w' stocked unsold run =
        let (_, b) = Run-IsBalanced _ w' run tt (opened-IsBalanced t stocked unsold) in
        All-map₂
          (λ r s c. rw (← c.1) (
            ground (
              arith,
              c.0,
              s.reserved_fits,
              +ℤ_parts r.stock_quantity (pos (units_of is_assembled r.uuid w'.0)),
            )))
          w'.1.0 b.stocked.rows b.counted
