-- ===== src/Order/Consumer.antt =====
-- The handler of ShipAssembled events (order/internal/consumer/assembly_consumer).
use rocket_factory.Prelude.{
  ℕ, Bool, true, false, Option, none, some, str_eq, ok, TxManager, Body, UuidCodec,
}
use rocket_factory.Prelude.Int.{ℤ}
use rocket_factory.Prelude.Action.{Action, pure, outside, ◌>>=◌, ◌>>◌}
use rocket_factory.Order.Errors.{Error}
use rocket_factory.Order.Model.{Order, ShipAssembledEvent, items_uuids, assembled}
use rocket_factory.Order.Repository.{Db, Postgres, get_for_update, update}
use rocket_factory.Order.Service.{Externals}

module _ (db : Postgres) {X : Type 0} (ext : Externals X) where
  abbrev pub assemble_unless : Bool → ℤ → Order → Action Error (Db × X) (Unit {0})
  assemble_unless true now order = pure tt
  assemble_unless false now order =
      outside (ext.inventory.commit_parts (items_uuids order))
      >> update db now (record order { status = assembled })

  -- The closure of ShipAssembledHandler.
  unfoldable pub assembled_body : ℤ → ℕ → Body Error Db X
  assembled_body now order_uuid = do
    order ← get_for_update db order_uuid
    assemble_unless (str_eq order.status assembled) now order

  abbrev pub handle_parsed : TxManager Error Db X → ℤ → Option ℕ → Action Error (Db × X) (Unit {0})
  handle_parsed tx now none w = (ok tt, w)
  handle_parsed tx now (some order_uuid) w = tx.run (assembled_body now order_uuid) w

  -- ShipAssembledHandler on the decoded event, or on none where the bytes are no event.
  unfoldable pub ship_assembled_handler :
      UuidCodec
      → TxManager Error Db X
      → ℤ
      → Option ShipAssembledEvent
      → Action Error (Db × X) (Unit {0})
  ship_assembled_handler codec tx now none w = (ok tt, w)
  ship_assembled_handler codec tx now (some event) w =
      handle_parsed tx now (codec.parse event.order_uuid) w
