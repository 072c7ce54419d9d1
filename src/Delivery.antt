-- ===== src/Delivery.antt =====
-- The events between the order and the assembly service, from the producer of one through the broker and
-- the middlewares to the handler of the other (order/internal/producer, assembly/internal/consumer,
-- assembly/internal/producer, order/internal/consumer, platform/pkg/kafka).
mod Tests
use rocket_factory.Prelude.{
  ℕ, String, ◌≡◌, refl, ap, ◌∙◌, Option, none, some, [], ◌∷◌, TxManager, UuidCodec, map,
}
use rocket_factory.Prelude.Int.{ℤ}
use rocket_factory.Prelude.Action.{Action}
use rocket_factory.Session.{Context, producer_session_headers, consumer_session}
use rocket_factory.Session.Travel.{received, consumer_session-producer_session_headers}
use rocket_factory.Platform.Kafka.{
  Message, ProducerMessage, Handler, Middleware, new_group_handler, decoded, send, convert_headers,
  extract_headers, session_middleware, consumer_logging,
}
use rocket_factory.Platform.Kafka.Wire.{OrderPaidProto, ShipAssembledProto, Protobuf, arrived}
use rocket_factory.Platform.Kafka.Chain.{new_group_handler-nest, extract_headers-convert_headers}
use rocket_factory.Order.Errors.{Error}
use rocket_factory.Order.Model.{Order}
use rocket_factory.Order.Repository.{Db, Postgres}
use rocket_factory.Order.Service.{Externals, order_paid}
use rocket_factory.Order.Consumer.{assembled_body, handle_parsed, ship_assembled_handler}
use rocket_factory.Order.Messages as OrderMessages
use rocket_factory.Assembly.{Surroundings, ShipAssembledEvent, assemble, order_paid_handler}
use rocket_factory.Assembly.Messages as AssemblyMessages

-- A message as Send gives it to the broker.
abbrev pub on_topic : String → Message → ProducerMessage
on_topic topic msg = record {
  topic = topic;
  key = msg.key;
  value = msg.value;
  headers = convert_headers msg.headers;
}

module _ (codec : UuidCodec) {E W : Type 0} where
  -- The handler of a consumer, inside the middlewares that the services give it.
  abbrev pub consumed : Handler E W → Handler E W
  consumed handler = new_group_handler handler (session_middleware codec ∷ consumer_logging ∷ [])

  -- A handler gets the message that was sent, in a context with the session of the sender.
  consumed-sent :
      (handler : Handler E W) (ctx sender : Context) (topic : String) (msg : Message)
      (partition offset timestamp : ℤ)
      → msg.headers ≡ producer_session_headers codec sender
      → consumed handler ctx (decoded (arrived partition offset timestamp (on_topic topic msg)))
        ≡ handler
            (received codec ctx sender.session_uuid)
            (decoded (arrived partition offset timestamp (on_topic topic msg)))
  unfolding decoded session_middleware consumer_logging
  consumed-sent handler ctx sender topic msg partition offset timestamp made =
      let got = decoded (arrived partition offset timestamp (on_topic topic msg)) in
      ap (λ (h : Handler E W). h ctx got)
        (new_group_handler-nest handler (session_middleware codec ∷ consumer_logging ∷ []))
      ∙ ap (λ c. handler c got)
          (ap (consumer_session codec ctx) (extract_headers-convert_headers msg.headers ∙ made)
            ∙ consumer_session-producer_session_headers codec ctx sender)

module _ (codec : UuidCodec) (zero_time : ℤ) (proto : Protobuf OrderPaidProto) {X Y E : Type 0}
    (send_message : ProducerMessage → Action Error X (Unit {0}))
    (surroundings : Context → Surroundings E Y) (low high : ℤ) where
  -- The message in which the order service announces a paid order.
  abbrev pub paid_message : String → Context → Order → String → ProducerMessage
  paid_message topic sender order bytes =
      on_topic topic
        (OrderMessages.order_paid_message codec zero_time sender (order_paid codec order) bytes)

  -- A paid order that can be marshalled is sent as one message, and the consumer of the assembly
  -- service, wherever it finds that message, assembles the ship of that order for its user, in a
  -- context with the session of the payer.
  pub on_order_paid-produce_order_paid :
      (topic : String) (sender ctx : Context) (order : Order) (bytes : String)
      (partition offset timestamp : ℤ) (x : X)
      → proto.marshal (OrderMessages.order_paid_proto (order_paid codec order)) ≡ some bytes
      → (OrderMessages.produce_order_paid codec zero_time proto
            (send topic send_message)
            sender
            (order_paid codec order)
            x
          ≡ send_message (paid_message topic sender order bytes) x)
        × (consumed codec
              (AssemblyMessages.on_order_paid codec surroundings low high proto)
              ctx
              (decoded (arrived partition offset timestamp (paid_message topic sender order bytes)))
            ≡ assemble codec
                (surroundings (received codec ctx sender.session_uuid))
                low
                high
                order.uuid
                order.user_uuid)
  unfolding OrderMessages.produce_order_paid send AssemblyMessages.on_order_paid decoded
      AssemblyMessages.decode_order_paid order_paid_handler
  on_order_paid-produce_order_paid topic sender ctx order bytes partition offset timestamp x made =
      (
        rw made refl,
        consumed-sent codec (AssemblyMessages.on_order_paid codec surroundings low high proto) ctx
              sender topic
              (OrderMessages.order_paid_message codec zero_time sender (order_paid codec order)
                bytes)
              partition offset timestamp refl
            ∙ rw
                (
                  proto.unmarshal-marshal _ bytes made,
                  codec.parse-to_string order.uuid,
                  codec.parse-to_string order.user_uuid,
                )
                refl,
      )

module _ (codec : UuidCodec) (zero_time : ℤ) (proto : Protobuf ShipAssembledProto) {X Y E : Type 0}
    (marshal_error : E) (send_message : ProducerMessage → Action E X (Unit {0})) (db : Postgres)
    (ext : Context → Externals Y) (tx : TxManager Error Db Y) (now : ℤ) where
  -- The message in which the assembly service announces a ship.
  abbrev pub assembled_message : String → Context → ShipAssembledEvent → String → ProducerMessage
  assembled_message topic sender event bytes =
      on_topic topic (AssemblyMessages.ship_assembled_message codec zero_time sender event bytes)

  -- An event of an assembled ship that can be marshalled is sent as one message, and the consumer of
  -- the order service runs its transaction on the order that the event names, in a context with the
  -- session of the sender.
  pub on_ship_assembled-produce_ship_assembled :
      (topic : String) (sender ctx : Context) (event : ShipAssembledEvent) (order : ℕ)
      (bytes : String) (partition offset timestamp : ℤ) (x : X)
      → event.order_uuid ≡ codec.to_string order
      → proto.marshal (AssemblyMessages.ship_assembled_proto event) ≡ some bytes
      → (AssemblyMessages.produce_ship_assembled codec zero_time marshal_error proto
            (send topic send_message)
            sender
            event
            x
          ≡ send_message (assembled_message topic sender event bytes) x)
        × (consumed codec (OrderMessages.on_ship_assembled db ext codec tx proto now) ctx (
              decoded
                (arrived partition offset timestamp (assembled_message topic sender event bytes)))
            ≡ tx.run (assembled_body db (ext (received codec ctx sender.session_uuid)) now order))
  unfolding AssemblyMessages.produce_ship_assembled send OrderMessages.on_ship_assembled decoded
      OrderMessages.decode_ship_assembled ship_assembled_handler
  on_ship_assembled-produce_ship_assembled topic sender ctx event order bytes partition offset
        timestamp x names made =
      (
        rw made refl,
        consumed-sent codec (OrderMessages.on_ship_assembled db ext codec tx proto now) ctx sender
              topic (AssemblyMessages.ship_assembled_message codec zero_time sender event bytes)
              partition offset timestamp refl
            ∙ rw (proto.unmarshal-marshal _ bytes made) (
                ap
                  (λ o w.
                    handle_parsed db (ext (received codec ctx sender.session_uuid)) tx now o w)
                  (ap codec.parse names ∙ codec.parse-to_string order)),
      )
