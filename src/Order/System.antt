-- ===== src/Order/System.antt =====
-- The order service over the inventory itself: its client, the wire, the interceptor and the handlers
-- (order/internal/client/grpc/inventory, inventory/internal/interceptor, inventory/internal/api).
pub mod Booking
pub mod Replies
pub mod Counters
pub mod Announced
pub mod Ledger
pub mod Balance
pub mod Accounts
pub mod Listing
pub mod Units
use rocket_factory.Prelude.{
  Bool, some, if◌then◌else◌, ℕ, String, Option, List, Result, ok, err, panic, UuidCodec, TxManager,
}
use rocket_factory.Prelude.Int.{ℤ}
use rocket_factory.Prelude.Grpc.{CallError, unavailable, unauthenticated}
use rocket_factory.Prelude.Action.{Action, outside}
use rocket_factory.Inventory.Errors
use rocket_factory.Inventory.Record.{PartPropertiesRecord}
use rocket_factory.Inventory.Repository
use rocket_factory.Inventory.Api
use rocket_factory.Order.Errors.{Error}
use rocket_factory.Order.Model.{OrderPaidEvent}
use rocket_factory.Order.Service.{Externals}
use rocket_factory.Order.Clients.{InventoryStub, inventory_client}
use rocket_factory.Order.Clients.Paths.{StatusRules, sent}

-- What is outside of both services: payment, the broker, and the counters.
pub record Others (Y : Type 0) : Type 0 where
  pub pay_order : ℕ → String → Action Error Y ℕ
  pub produce_order_paid : OrderPaidEvent → Action Error Y (Unit {0})
  pub orders_created_total : ℤ → Y → Y
  pub orders_paid_total : ℤ → Y → Y
  pub orders_revenue_total : ℤ → Y → Y

module _ (codec : UuidCodec) (rules : StatusRules)
    (unmarshal : String → Option PartPropertiesRecord) (inventory_db : Repository.Postgres)
    {Y : Type 0} (inventory_tx : TxManager Errors.Error Repository.Table Y)
    (admits : Y → Bool) where
  -- The answer of a handler behind the error interceptor, as the caller gets it. A panic, which nothing
  -- recovers, ends the server, and its callers find it unavailable.
  abbrev pub server : {A W : Type 0} → Result Errors.Error A × W → Result CallError A × W
  server (ok a, w) = (ok a, w)
  server (err e, w) = (err (sent (rules.status_code (Api.intercept rules.status_code e))), w)
  server (panic, w) = (err (sent (some unavailable)), w)

  -- A handler behind Auth (inventory/internal/interceptor/auth.go), which is the interceptor next to it.
  -- Whether the call's session is one that the IAM service knows is what `admits` says of the world.
  abbrev pub behind_auth :
      {A : Type 0}
      → Action Errors.Error (Repository.Table × Y) A
      → Action Errors.Error (Repository.Table × Y) A
  behind_auth handler w = if admits w.1 then handler w else (err (Errors.status unauthenticated), w)

  -- A call of the server.
  abbrev pub serve :
      {A : Type 0}
      → Action Errors.Error (Repository.Table × Y) A
      → Action CallError (Repository.Table × Y) A
  serve handler w = server (behind_auth handler w)

  -- The inventory service, as the stub of the client. ListParts is called without a part type.
  abbrev pub inventory_stub : InventoryStub (Repository.Table × Y)
  inventory_stub = record {
    list_parts = λ us.
        serve (Api.list_parts codec unmarshal inventory_db inventory_tx us Api.proto_unspecified);
    reserve_parts = λ us. serve (Api.reserve_parts codec unmarshal inventory_db inventory_tx us);
    release_parts = λ us. serve (Api.release_parts codec unmarshal inventory_db inventory_tx us);
    commit_parts = λ us. serve (Api.commit_parts codec unmarshal inventory_db inventory_tx us);
    validate_compatibility =
        λ req. serve (Api.validate codec unmarshal inventory_db inventory_tx req);
  }

  -- The world outside the order service, with the inventory's table in it.
  abbrev pub system : Others Y → Externals (Repository.Table × Y)
  system others = record {
    inventory = inventory_client codec inventory_stub;
    pay_order = λ u m. outside (others.pay_order u m);
    produce_order_paid = λ e. outside (others.produce_order_paid e);
    orders_created_total = λ n w. (w.0, others.orders_created_total n w.1);
    orders_paid_total = λ n w. (w.0, others.orders_paid_total n w.1);
    orders_revenue_total = λ n w. (w.0, others.orders_revenue_total n w.1);
  }
