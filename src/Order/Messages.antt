-- ===== src/Order/Messages.antt =====
-- The Kafka messages of the order service (order/internal/producer/order_producer,
-- order/internal/consumer/assembly_consumer).
use rocket_factory.Prelude.{ℕ, String, List, Option, none, some, err, TxManager, UuidCodec}
use rocket_factory.Prelude.Int.{ℤ, pos}
use rocket_factory.Prelude.Action.{Action}
use rocket_factory.Session.{Context, producer_session_headers}
use rocket_factory.Platform.Kafka.{Message, Handler, GroupError, Consumer, consume}
use rocket_factory.Platform.Kafka.Wire.{OrderPaidProto, ShipAssembledProto, Protobuf, as_time}
use rocket_factory.Order.Errors.{Error, other}
use rocket_factory.Order.Model.{OrderPaidEvent, ShipAssembledEvent}
use rocket_factory.Order.Repository.{Db, Postgres}
use rocket_factory.Order.Service.{Externals}
use rocket_factory.Order.Consumer.{ship_assembled_handler}

-- A message that was made by a producer of the services; the time, the partition and the offset are
-- left to the broker.
abbrev pub order_paid_proto : OrderPaidEvent → OrderPaidProto
order_paid_proto event = record {
  event_uuid = event.uuid;
  order_uuid = event.order_uuid;
  user_uuid = event.user_uuid;
}

module _ (codec : UuidCodec) (zero_time : ℤ) where
  abbrev pub order_paid_message : Context → OrderPaidEvent → String → Message
  order_paid_message ctx event payload = record {
    headers = producer_session_headers codec ctx;
    timestamp = zero_time;
    key = event.uuid;
    value = payload;
    topic = "";
    partition = pos 0;
    offset = pos 0;
  }

  abbrev pub send_payload :
      {X : Type 0}
      → (Message → Action Error X (Unit {0}))
      → Context
      → OrderPaidEvent
      → Option String
      → Action Error X (Unit {0})
  send_payload send ctx event none x = (err other, x)
  send_payload send ctx event (some payload) x = send (order_paid_message ctx event payload) x

  -- ProduceOrderPaid
  unfoldable pub produce_order_paid :
      {X : Type 0}
      → Protobuf OrderPaidProto
      → (Message → Action Error X (Unit {0}))
      → Context
      → OrderPaidEvent
      → Action Error X (Unit {0})
  produce_order_paid proto send ctx event =
      send_payload send ctx event (proto.marshal (order_paid_proto event))

abbrev pub ship_assembled_event : Option ShipAssembledProto → Option ShipAssembledEvent
ship_assembled_event none = none
ship_assembled_event (some pb) = some (record {
  uuid = pb.event_uuid;
  order_uuid = pb.order_uuid;
  user_uuid = pb.user_uuid;
  build_time_sec = pb.build_time_sec;
  assembled_at = as_time pb.assembled_at;
})

-- decodeShipAssembled; none is its error.
unfoldable pub decode_ship_assembled :
    Protobuf ShipAssembledProto → String → Option ShipAssembledEvent
decode_ship_assembled proto bytes = ship_assembled_event (proto.unmarshal bytes)

module _ (db : Postgres) {X : Type 0} (ext : Context → Externals X) (codec : UuidCodec)
    (tx : TxManager Error Db X) (proto : Protobuf ShipAssembledProto) (now : ℤ) where
  -- ShipAssembledHandler on a message; its calls have the context that the handler was given.
  unfoldable pub on_ship_assembled : Handler Error (Db × X)
  unfolding decode_ship_assembled
  on_ship_assembled ctx msg =
      ship_assembled_handler db (ext ctx) codec tx now (decode_ship_assembled proto msg.value)

  -- RunConsumer
  unfoldable pub run_consumer :
      (List String → Handler Error (Db × X) → Db × X → Option (GroupError Error) × (Db × X))
      → (Db × X → Option Error)
      → Consumer Error (Db × X)
      → ℕ
      → Db × X
      → Option (Option Error) × (Db × X)
  run_consumer group ctx_err c = consume group ctx_err c on_ship_assembled
