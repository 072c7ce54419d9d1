-- ===== src/Delivery/Tests.antt =====
-- Messages between the services at concrete orders.
use rocket_factory.Prelude.{
  ℕ, String, ◌≡◌, refl, ap, Bool, true, false, Bool-cases, inl, inr, ◌&&◌, Option, none, some, ok,
  List, [], ◌∷◌, str_eq, eq_iff, ◌==◌, arith, if◌then◌else◌,
}
use rocket_factory.Prelude.Int.{ℤ, pos, negsuc}
use rocket_factory.Prelude.Unary.{unary}
use rocket_factory.Prelude.Action.{Action}
use rocket_factory.Session.{Context}
use rocket_factory.Platform.Kafka.{ProducerMessage, decoded, send}
use rocket_factory.Platform.Kafka.Wire.{OrderPaidProto, ShipAssembledProto, Protobuf, arrived}
use rocket_factory.Order.Service.{order_paid}
use rocket_factory.Order.Consumer.{assembled_body}
use rocket_factory.Order.Messages as OrderMessages
use rocket_factory.Order.Tests.{quiet_db, elsewhere, tx, placed}
use rocket_factory.Assembly.{ShipAssembledEvent, assemble}
use rocket_factory.Assembly.Messages as AssemblyMessages
use rocket_factory.Assembly.Tests.{quiet}
use rocket_factory.Delivery.{
  consumed, paid_message, assembled_message, on_order_paid-produce_order_paid,
  on_ship_assembled-produce_ship_assembled,
}

-- A codec that writes one message only, as the empty text.
module _ {P : Type 0} (same : P → P → Bool) (sound : (p q : P) → same p q ≡ true → p ≡ q)
    (p : P) where
  abbrev pub only_marshal : P → Option String
  only_marshal q = if same p q then some "" else none

  pub only_law : (q : P) (bytes : String) → only_marshal q ≡ some bytes → some p ≡ some q
  only_law q bytes h = elim (Bool-cases (same p q)) [
    | inl e ↦ ap (λ v. some v) (sound p q e)
    | inr e ↦ cc (rw e at h)
  ]

  abbrev pub only : Protobuf P
  only = record {
    marshal = only_marshal;
    unmarshal = λ bytes. some p;
    unmarshal-marshal = only_law;
  }

abbrev same_paid : OrderPaidProto → OrderPaidProto → Bool
same_paid p q =
    str_eq p.event_uuid q.event_uuid
    && (str_eq p.order_uuid q.order_uuid && str_eq p.user_uuid q.user_uuid)

same_paid_sound : (p q : OrderPaidProto) → same_paid p q ≡ true → p ≡ q
same_paid_sound p q h = ground (
  arith,
  eq_iff p.event_uuid q.event_uuid,
  eq_iff p.order_uuid q.order_uuid,
  eq_iff p.user_uuid q.user_uuid,
)

abbrev same_ℤ : ℤ → ℤ → Bool
same_ℤ (pos a) (pos b) = a == b
same_ℤ (negsuc a) (negsuc b) = a == b
same_ℤ a b = false

same_ℤ_sound : (a b : ℤ) → same_ℤ a b ≡ true → a ≡ b
same_ℤ_sound (pos a) (pos b) h = ground arith
same_ℤ_sound (negsuc a) (negsuc b) h = ground arith
same_ℤ_sound (pos a) (negsuc b) h = cc
same_ℤ_sound (negsuc a) (pos b) h = cc

abbrev same_time : Option ℤ → Option ℤ → Bool
same_time none none = true
same_time (some a) (some b) = same_ℤ a b
same_time a b = false

same_time_sound : (a b : Option ℤ) → same_time a b ≡ true → a ≡ b
same_time_sound none none h = refl
same_time_sound (some a) (some b) h = ap (λ v. some v) (same_ℤ_sound a b h)
same_time_sound none (some b) h = cc
same_time_sound (some a) none h = cc

abbrev same_ship : ShipAssembledProto → ShipAssembledProto → Bool
same_ship p q =
    (str_eq p.event_uuid q.event_uuid
      && (str_eq p.order_uuid q.order_uuid && str_eq p.user_uuid q.user_uuid))
    && (same_ℤ p.build_time_sec q.build_time_sec && same_time p.assembled_at q.assembled_at)

same_ship_sound : (p q : ShipAssembledProto) → same_ship p q ≡ true → p ≡ q
same_ship_sound p q h = ground (
  arith,
  eq_iff p.event_uuid q.event_uuid,
  eq_iff p.order_uuid q.order_uuid,
  eq_iff p.user_uuid q.user_uuid,
  same_ℤ_sound p.build_time_sec q.build_time_sec,
  same_time_sound p.assembled_at q.assembled_at,
)

abbrev nobody : Context
nobody = record { user_uuid = none; session_uuid = none }

abbrev payer : Context
payer = record { user_uuid = some 5; session_uuid = some 3 }

-- A broker that keeps what is sent.
abbrev keeping : {E : Type 0} → ProducerMessage → Action E (List ProducerMessage) (Unit {0})
keeping m log = (ok tt, m ∷ log)

abbrev paid_proto : OrderPaidProto
paid_proto = OrderMessages.order_paid_proto (order_paid unary placed)

on_order_paid-produce_order_paid_example :
    (OrderMessages.produce_order_paid unary
        (pos 0)
        (only same_paid same_paid_sound paid_proto)
        (send "order.paid" keeping)
        payer
        (order_paid unary placed)
        []
      ≡ keeping
          (paid_message unary
            (pos 0)
            (only same_paid same_paid_sound paid_proto)
            keeping
            (λ ctx. quiet)
            (pos 3)
            (pos 10)
            "order.paid"
            payer
            placed
            "")
          [])
    × (consumed unary
          (AssemblyMessages.on_order_paid unary
            (λ ctx. quiet)
            (pos 3)
            (pos 10)
            (only same_paid same_paid_sound paid_proto))
          nobody
          (decoded (
            arrived (pos 0) (pos 8) (pos 1) (
              paid_message unary
                (pos 0)
                (only same_paid same_paid_sound paid_proto)
                keeping
                (λ ctx. quiet)
                (pos 3)
                (pos 10)
                "order.paid"
                payer
                placed
                "")))
        ≡ assemble unary quiet (pos 3) (pos 10) placed.uuid placed.user_uuid)
on_order_paid-produce_order_paid_example =
    on_order_paid-produce_order_paid unary (pos 0) (only same_paid same_paid_sound paid_proto)
      keeping (λ ctx. quiet) (pos 3) (pos 10) "order.paid" payer nobody placed "" (pos 0) (pos 8)
      (pos 1) [] refl

abbrev unmarshalled : ℕ
unmarshalled = 1

abbrev ship_event : ShipAssembledEvent
ship_event = record {
  uuid = unary.to_string 7;
  order_uuid = unary.to_string 7;
  user_uuid = unary.to_string 5;
  build_time_sec = pos 3;
  assembled_at = pos 100;
}

abbrev ship_proto : ShipAssembledProto
ship_proto = AssemblyMessages.ship_assembled_proto ship_event

on_ship_assembled-produce_ship_assembled_example :
    (AssemblyMessages.produce_ship_assembled unary
        (pos 0)
        unmarshalled
        (only same_ship same_ship_sound ship_proto)
        (send "ship.assembled" keeping)
        payer
        ship_event
        []
      ≡ keeping
          (assembled_message unary
            (pos 0)
            (only same_ship same_ship_sound ship_proto)
            unmarshalled
            keeping
            quiet_db
            (λ ctx. elsewhere)
            tx
            (pos 200)
            "ship.assembled"
            payer
            ship_event
            "")
          [])
    × (consumed unary
          (OrderMessages.on_ship_assembled quiet_db
            (λ ctx. elsewhere)
            unary
            tx
            (only same_ship same_ship_sound ship_proto)
            (pos 200))
          nobody
          (decoded (
            arrived (pos 0) (pos 8) (pos 1) (
              assembled_message unary
                (pos 0)
                (only same_ship same_ship_sound ship_proto)
                unmarshalled
                keeping
                quiet_db
                (λ ctx. elsewhere)
                tx
                (pos 200)
                "ship.assembled"
                payer
                ship_event
                "")))
        ≡ tx.run (assembled_body quiet_db elsewhere (pos 200) 7))
on_ship_assembled-produce_ship_assembled_example =
    on_ship_assembled-produce_ship_assembled unary (pos 0)
      (only same_ship same_ship_sound ship_proto) unmarshalled keeping quiet_db (λ ctx. elsewhere)
      tx (pos 200) "ship.assembled" payer nobody ship_event 7 "" (pos 0) (pos 8) (pos 1) [] refl
      refl
