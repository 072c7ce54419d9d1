-- ===== src/Assembly.antt =====
-- The assembly service (assembly/internal): it waits for a random build time and announces the ship.
-- `X` is the world outside: the source of randomness, the clock, the broker.
pub mod Messages
pub mod Building
pub mod Tests
use rocket_factory.Prelude.{
  ℕ, String, Bool, ◌&&◌, Option, none, some, if◌then◌else◌, Result, ok, err, UuidCodec,
}
use rocket_factory.Prelude.Int.{ℤ, pos, add64, sub64, ltb_ℤ, leb_ℤ}
use rocket_factory.Prelude.Action
use rocket_factory.Prelude.Action.{Action, pure}

-- model.OrderPaidEvent
pub record OrderPaidEvent : Type 0 where
  pub uuid : String
  pub order_uuid : String
  pub user_uuid : String

-- model.ShipAssembledEvent
pub record ShipAssembledEvent : Type 0 where
  pub uuid : String
  pub order_uuid : String
  pub user_uuid : String
  pub build_time_sec : ℤ
  pub assembled_at : ℤ

-- What the service calls: `rand.Int` on a positive bound, the wait for a duration (an error is the
-- cancelled context), `int64(d.Seconds())`, the clock, and the producer.
pub record Surroundings (E X : Type 0) : Type 0 where
  pub random : ℤ → Action E X ℤ
  pub wait : ℤ → Action E X (Unit {0})
  pub seconds : ℤ → ℤ
  pub now : X → ℤ
  pub produce_ship_assembled : ShipAssembledEvent → Action E X (Unit {0})

module _ {E X : Type 0} (codec : UuidCodec) (s : Surroundings E X)
    (min_build_time max_build_time : ℤ) where
  -- generateRandomSleepDuration; durations are nanoseconds in int64.
  unfoldable pub generate_random_sleep_duration : Action E X ℤ
  unfolding add64 sub64
  generate_random_sleep_duration =
      if ltb_ℤ min_build_time max_build_time
      then Action.◌>>=◌ (s.random (sub64 max_build_time min_build_time))
          (λ n. pure (add64 n min_build_time))
      else if leb_ℤ max_build_time min_build_time && leb_ℤ min_build_time max_build_time
      then pure min_build_time
      else pure (pos 0)

  abbrev pub announce : ℕ → ℕ → ℤ → Action E X (Unit {0})
  announce order_uuid user_uuid sleep_duration x =
      s.produce_ship_assembled
        (record {
          uuid = codec.to_string order_uuid;
          order_uuid = codec.to_string order_uuid;
          user_uuid = codec.to_string user_uuid;
          build_time_sec = s.seconds sleep_duration;
          assembled_at = s.now x;
        })
        x

  -- Assemble
  unfoldable pub assemble : ℕ → ℕ → Action E X (Unit {0})
  unfolding generate_random_sleep_duration
  assemble order_uuid user_uuid = Action.◌>>=◌ generate_random_sleep_duration λ sleep_duration.
      Action.◌>>◌ (s.wait sleep_duration) (announce order_uuid user_uuid sleep_duration)

  abbrev pub assemble_parsed : Option ℕ → Option ℕ → Action E X (Unit {0})
  assemble_parsed none user = pure tt
  assemble_parsed (some order_uuid) none = pure tt
  assemble_parsed (some order_uuid) (some user_uuid) = assemble order_uuid user_uuid

  -- OrderPaidHandler on the decoded event, or on none where the bytes are no event.
  unfoldable pub order_paid_handler : Option OrderPaidEvent → Action E X (Unit {0})
  order_paid_handler none = pure tt
  order_paid_handler (some event) =
      assemble_parsed (codec.parse event.order_uuid) (codec.parse event.user_uuid)
