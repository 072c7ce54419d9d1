-- ===== src/Assembly/Building.antt =====
-- The build time and the announcement of a ship (assembly/internal/service/assembly/assemble.go).
use rocket_factory.Prelude.{
  ℕ, ◌≡◌, sym, ◌∙◌, ap, subst, Bool-cases, true, inl, inr, ◌&&◌, ◌⊎◌, arith, Result, ok, UuidCodec,
}
use rocket_factory.Prelude.Int.{
  ℤ, pos, add64, sub64, ltb_ℤ, leb_ℤ, ◌≤ℤ◌, ◌<ℤ◌, ◌+ℤ◌, ◌-ℤ◌, InInt64, eq_of_parts, wrap64_id,
  +ℤ_parts, -ℤ_parts,
}
use rocket_factory.Prelude.Action
use rocket_factory.Prelude.Action.{Action, pure}
use rocket_factory.Assembly.{Surroundings, generate_random_sleep_duration, announce, assemble}

sub64-InInt64 : (a b : ℤ) → InInt64 a → pos 0 ≤ℤ b → b ≤ℤ a → sub64 a b ≡ a -ℤ b
unfolding sub64
sub64-InInt64 a b h k l = wrap64_id (a -ℤ b) (ground (arith, -ℤ_parts a b))

shifted-bounds :
    (n low high : ℤ)
    → pos 0 ≤ℤ n
    → pos 0 ≤ℤ low
    → n <ℤ high -ℤ low
    → InInt64 high
    → (add64 n low ≡ n +ℤ low) × (low ≤ℤ n +ℤ low) × (n +ℤ low ≤ℤ high)
unfolding add64
shifted-bounds n low high from_zero low_from_zero below h = (
  wrap64_id (n +ℤ low) (ground (arith, +ℤ_parts n low, -ℤ_parts high low)),
  ground (arith, +ℤ_parts n low),
  ground (arith, +ℤ_parts n low, -ℤ_parts high low),
)

value_of : {E : Type 0} (v : ℤ) {d : ℤ} → ◌≡◌ {A = Result E ℤ} (ok v) (ok d) → v ≡ d
value_of v h = cc

module _ {E X : Type 0} (s : Surroundings E X) (low high : ℤ) where
  -- How a duration comes about: it is the one that there is, and nothing happens, or it is drawn once,
  -- below the width of the range, and shifted into it.
  abbrev pub Draws : ℤ → X → X → Type 0
  Draws d x y =
      ((low ≡ high) × (d ≡ low) × (y ≡ x))
      ⊎ ((low <ℤ high) × ((n : ℤ) × (s.random (high -ℤ low) x ≡ (ok n, y)) × (d ≡ n +ℤ low)))

module _ {E X : Type 0} (codec : UuidCodec) (s : Surroundings E X) (low high : ℤ)
    (ordered : low ≤ℤ high) (positive : pos 0 ≤ℤ low) (in_range : InInt64 high)
    (random_below : (bound n : ℤ) (x : X)
      → (s.random bound x).0 ≡ ok n
      → (pos 0 ≤ℤ n) × (n <ℤ bound)) where
  -- With a build time from `low` to `high`, neither negative, every duration is in that range and comes
  -- about in that way.
  pub generate_random_sleep_duration-Draws :
      (x : X) {d : ℤ} {y : X}
      → generate_random_sleep_duration codec s low high x ≡ (ok d, y)
      → ((low ≤ℤ d) × (d ≤ℤ high)) × Draws s low high d x y
  unfolding generate_random_sleep_duration
  generate_random_sleep_duration-Draws x {d} {y} h = elim (Bool-cases (ltb_ℤ low high)) [
    | inl wide ↦
        let h1 = rw wide at h in
        let size = sub64-InInt64 high low in_range positive ordered in
        let h2 = rw size at h1 in
        let (n, drawn, last) =
          Action.>>=-eq-ok (s.random (high -ℤ low)) (λ n. pure (add64 n low)) x y h2 in
        let below = random_below (high -ℤ low) n x drawn in
        let (sum, above, under) = shifted-bounds n low high below.0 positive below.1 in_range in
        let same : d ≡ n +ℤ low = sym (value_of (add64 n low) (ap (λ q. q.0) last)) ∙ sum in
        let world : (s.random (high -ℤ low) x).1 ≡ y = ap (λ q. q.1) last in
        (
          subst (λ v. (low ≤ℤ v) × (v ≤ℤ high)) (sym same) (above, under),
          inr (
            ground (arith, wide),
            (
              n,
              ap (λ r. (r, (s.random (high -ℤ low) x).1)) drawn ∙ ap (λ w. (ok n, w)) world,
              same,
            ),
          ),
        )
    | inr narrow ↦
        let h1 = rw narrow at h in
        let same : (leb_ℤ high low && leb_ℤ low high) ≡ true = ground (arith, narrow, ordered) in
        let h2 = rw same at h1 in
        let equal : low ≡ high = eq_of_parts low high (ground (arith, narrow, ordered)) in
        let value : low ≡ d = value_of low (ap (λ q. q.0) h2) in
        (
          subst (λ v. (low ≤ℤ v) × (v ≤ℤ high)) value (ground arith, ordered),
          inl (equal, sym value, sym (ap (λ q. q.1) h2)),
        )
  ]

  -- With a build time from `low` to `high`, neither negative, an assembly without error has drawn a
  -- duration in that range, waited for it, and then sent one event, with the order, its user, the
  -- seconds of that duration and the time after the wait, and it has done nothing else.
  pub assemble_effect :
      (order_uuid user_uuid : ℕ) (x x' : X)
      → assemble codec s low high order_uuid user_uuid x ≡ (ok tt, x')
      → (d : ℤ) × (y z : X) × ((low ≤ℤ d) × (d ≤ℤ high))
        × Draws s low high d x y
        × (s.wait d y ≡ (ok tt, z))
        × (s.produce_ship_assembled
              (record {
                uuid = codec.to_string order_uuid;
                order_uuid = codec.to_string order_uuid;
                user_uuid = codec.to_string user_uuid;
                build_time_sec = s.seconds d;
                assembled_at = s.now z;
              })
              z
            ≡ (ok tt, x'))
  unfolding assemble
  assemble_effect order_uuid user_uuid x x' h =
      let draw = generate_random_sleep_duration codec s low high in
      let (d, drawn, h1) =
        Action.>>=-eq-ok draw
          (λ d. Action.◌>>◌ (s.wait d) (announce codec s low high order_uuid user_uuid d)) x x' h in
      let y = (draw x).1 in
      let (_, waited, h2) =
        Action.>>=-eq-ok (s.wait d) (λ _. announce codec s low high order_uuid user_uuid d) y x'
          h1 in
      let (bounds, made) = generate_random_sleep_duration-Draws x (ap (λ r. (r, y)) drawn) in
      let z = (s.wait d y).1 in (d, y, z, bounds, made, ap (λ r. (r, z)) waited, h2)
