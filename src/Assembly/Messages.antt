-- ===== src/Assembly/Messages.antt =====
-- The Kafka messages of the assembly service (assembly/internal/producer/ship_assembled,
-- assembly/internal/consumer/order_paid).
use rocket_factory.Prelude.{ℕ, String, List, Option, none, some, err, UuidCodec}
use rocket_factory.Prelude.Int.{ℤ, pos}
use rocket_factory.Prelude.Action.{Action}
use rocket_factory.Session.{Context, producer_session_headers}
use rocket_factory.Platform.Kafka.{Message, Handler, GroupError, Consumer, consume}
use rocket_factory.Platform.Kafka.Wire.{OrderPaidProto, ShipAssembledProto, Protobuf}
use rocket_factory.Assembly.{OrderPaidEvent, ShipAssembledEvent, Surroundings, order_paid_handler}

abbrev pub ship_assembled_proto : ShipAssembledEvent → ShipAssembledProto
ship_assembled_proto event = record {
  event_uuid = event.uuid;
  order_uuid = event.order_uuid;
  user_uuid = event.user_uuid;
  build_time_sec = event.build_time_sec;
  assembled_at = some event.assembled_at;
}

-- The message of an event; the time, the partition and the offset are left to the broker.
abbrev pub ship_assembled_message : UuidCodec → ℤ → Context → ShipAssembledEvent → String → Message
ship_assembled_message codec zero_time ctx event payload = record {
  headers = producer_session_headers codec ctx;
  timestamp = zero_time;
  key = event.order_uuid;
  value = payload;
  topic = "";
  partition = pos 0;
  offset = pos 0;
}

module _ (codec : UuidCodec) (zero_time : ℤ) {E X : Type 0} (marshal_error : E) where
  abbrev pub send_payload :
      (Message → Action E X (Unit {0}))
      → Context
      → ShipAssembledEvent
      → Option String
      → Action E X (Unit {0})
  send_payload send ctx event none x = (err marshal_error, x)
  send_payload send ctx event (some payload) x =
      send (ship_assembled_message codec zero_time ctx event payload) x

  -- ProduceShipAssembled
  unfoldable pub produce_ship_assembled :
      Protobuf ShipAssembledProto
      → (Message → Action E X (Unit {0}))
      → Context
      → ShipAssembledEvent
      → Action E X (Unit {0})
  produce_ship_assembled proto send ctx event =
      send_payload send ctx event (proto.marshal (ship_assembled_proto event))

abbrev pub order_paid_event : Option OrderPaidProto → Option OrderPaidEvent
order_paid_event none = none
order_paid_event (some pb) =
    some (record { uuid = pb.event_uuid; order_uuid = pb.order_uuid; user_uuid = pb.user_uuid })

-- decodeOrderPaid; none is its error.
unfoldable pub decode_order_paid : Protobuf OrderPaidProto → String → Option OrderPaidEvent
decode_order_paid proto bytes = order_paid_event (proto.unmarshal bytes)

module _ {E X : Type 0} (codec : UuidCodec) (surroundings : Context → Surroundings E X)
    (min_build_time max_build_time : ℤ) (proto : Protobuf OrderPaidProto) where
  -- OrderPaidHandler on a message; its calls have the context that the handler was given.
  unfoldable pub on_order_paid : Handler E X
  unfolding decode_order_paid
  on_order_paid ctx msg =
      order_paid_handler codec (surroundings ctx) min_build_time max_build_time
        (decode_order_paid proto msg.value)

  -- RunConsumer
  unfoldable pub run_consumer :
      (List String → Handler E X → X → Option (GroupError E) × X)
      → (X → Option E)
      → Consumer E X
      → ℕ
      → X
      → Option (Option E) × X
  run_consumer group ctx_err c = consume group ctx_err c on_order_paid
