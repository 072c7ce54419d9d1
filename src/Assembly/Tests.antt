-- ===== src/Assembly/Tests.antt =====
-- The theorems on the assembly service at concrete build times.
use rocket_factory.Prelude.{ℕ, ◌≡◌, refl, List, [], ◌∷◌, ok, Result, arith}
use rocket_factory.Prelude.Unary.{unary}
use rocket_factory.Prelude.Int.{ℤ, pos, ◌≤ℤ◌, ◌<ℤ◌, ltb_ℤ}
use rocket_factory.Prelude.{if◌then◌else◌}
use rocket_factory.Assembly.{ShipAssembledEvent, Surroundings, assemble}
use rocket_factory.Assembly.Building.{Draws, assemble_effect}

-- The events that were sent, the latest first. Randomness gives the least number.
abbrev pub quiet : Surroundings ℕ (List ShipAssembledEvent)
quiet = record {
  random = λ bound x. (if ltb_ℤ (pos 0) bound then ok (pos 0) else Result.err 1, x);
  wait = λ d x. (ok tt, x);
  seconds = λ d. d;
  now = λ x. pos 0;
  produce_ship_assembled = λ e x. (ok tt, e ∷ x);
}

quiet_below :
    (bound n : ℤ) (x : List ShipAssembledEvent)
    → (quiet.random bound x).0 ≡ ok n
    → (pos 0 ≤ℤ n) × (n <ℤ bound)
quiet_below bound n x h = ground (arith, h)

abbrev sent : List ShipAssembledEvent
sent =
    record {
      uuid = unary.to_string 7;
      order_uuid = unary.to_string 7;
      user_uuid = unary.to_string 5;
      build_time_sec = pos 3;
      assembled_at = pos 0;
    }
    ∷ []

assemble_run : assemble unary quiet (pos 3) (pos 10) 7 5 [] ≡ (ok tt, sent)
unfolding assemble
assemble_run = refl

assemble_effect_example :
    (d : ℤ) × (y z : List ShipAssembledEvent) × ((pos 3 ≤ℤ d) × (d ≤ℤ pos 10))
    × Draws quiet (pos 3) (pos 10) d [] y
    × (quiet.wait d y ≡ (ok tt, z))
    × (quiet.produce_ship_assembled
          (record {
            uuid = unary.to_string 7;
            order_uuid = unary.to_string 7;
            user_uuid = unary.to_string 5;
            build_time_sec = quiet.seconds d;
            assembled_at = quiet.now z;
          })
          z
        ≡ (ok tt, sent))
assemble_effect_example =
    assemble_effect unary quiet (pos 3) (pos 10) (ground arith) (ground arith) (ground arith)
      quiet_below 7 5 [] sent assemble_run
