-- ===== src/Platform/Kafka/Wire.antt =====
-- The bodies of the events (shared/pkg/proto/events/v1) and what the broker does with a message, both
-- of which the services take as given.
use rocket_factory.Prelude.{String, ◌≡◌, Option, none, some, map}
use rocket_factory.Prelude.Int.{ℤ, pos}
use rocket_factory.Platform.Kafka.{ConsumerMessage, ProducerMessage}

-- eventsv1.OrderPaid
pub record OrderPaidProto : Type 0 where
  pub event_uuid : String
  pub order_uuid : String
  pub user_uuid : String

-- eventsv1.ShipAssembled; a time that is not set is none.
pub record ShipAssembledProto : Type 0 where
  pub event_uuid : String
  pub order_uuid : String
  pub user_uuid : String
  pub build_time_sec : ℤ
  pub assembled_at : Option ℤ

-- `AsTime`: a time that is not set is that of 1970.
abbrev pub as_time : Option ℤ → ℤ
as_time none = pos 0
as_time (some t) = t

-- `proto.Marshal` and `proto.Unmarshal` of one kind of message: what was marshalled is read back.
pub record Protobuf (P : Type 0) : Type 0 where
  pub marshal : P → Option String
  pub unmarshal : String → Option P
  pub unmarshal-marshal :
      (p : P) (bytes : String) → marshal p ≡ some bytes → unmarshal bytes ≡ some p

-- A message as a consumer gets it: as it was sent, at some place of a partition.
abbrev pub arrived : ℤ → ℤ → ℤ → ProducerMessage → ConsumerMessage
arrived partition offset timestamp m = record {
  headers = map (λ h. some h) m.headers;
  timestamp = timestamp;
  key = m.key;
  value = m.value;
  topic = m.topic;
  partition = partition;
  offset = offset;
}
