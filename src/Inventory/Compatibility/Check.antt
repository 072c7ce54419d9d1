-- ===== src/Inventory/Compatibility/Check.antt =====
-- The compatibility rules, without pointers (inventory/internal/service/domain/compatibility_checker.go).
use rocket_factory.Prelude.{
  ◌≡◌, ◌↔◌, ◌⊎◌, inl, inr, Option, none, some, ok, panic, arith, eq_iff, Bool-cases, true,
}
use rocket_factory.Prelude.Int.{◌≤ℤ◌}
use rocket_factory.Inventory.Properties.{
  HullProperties, EngineProperties, ShieldProperties, WeaponProperties, conflicts_with, can_support,
  plasma_shield, laser_weapon,
}
use rocket_factory.Inventory.Compatibility.{
  ResolvedShipSlots, check, shield_of, weapon_of, conflict,
}

-- A plasma shield with a laser weapon.
abbrev pub Interferes : Option ShieldProperties → Option WeaponProperties → Type 0
Interferes none w = ⊥
Interferes (some s) none = ⊥
Interferes (some s) (some w) = (s.shield_type ≡ plasma_shield) × (w.weapon_type ≡ laser_weapon)

-- The hull is strong enough for the engine, and shield and weapon do not interfere.
pub record IsCompatible (h : HullProperties) (e : EngineProperties) (s : Option ShieldProperties)
    (w : Option WeaponProperties) : Type 0 where
  pub strong : e.required_strength ≤ℤ h.strength
  pub calm : ¬ (Interferes s w)

conflict_iff :
    (s : Option ShieldProperties) (w : Option WeaponProperties)
    → (conflict s w ≡ true) ↔ Interferes s w
unfolding conflicts_with
conflict_iff none w = (λ h. cc, λ h. absurd h)
conflict_iff (some s) none = (λ h. cc, λ h. absurd h)
conflict_iff (some s) (some w) =
    ground (arith, eq_iff s.shield_type plasma_shield, eq_iff w.weapon_type laser_weapon)

module _ (parts : ResolvedShipSlots) (h : HullProperties) (e : EngineProperties)
    (has_hull : parts.hull.properties.hull ≡ some h)
    (has_engine : parts.engine.properties.engine ≡ some e) where
  -- For a hull and an engine that have properties of their types, the check passes exactly when
  -- the parts are compatible.
  pub check-IsCompatible :
      (check parts ≡ ok tt) ↔ IsCompatible h e (shield_of parts.shield) (weapon_of parts.weapon)
  unfolding check can_support
  check-IsCompatible =
      let clash = conflict_iff (shield_of parts.shield) (weapon_of parts.weapon) in
      (
        λ h. record { strong = ground (arith, h); calm = λ bad. ground (arith, h, clash.1 bad) },
        λ c. elim (Bool-cases (conflict (shield_of parts.shield) (weapon_of parts.weapon))) [
          | inl bad ↦ absurd (c.calm (clash.0 bad))
          | inr fine ↦ ground (arith, c.strong, fine)
        ],
      )

-- The pointers of the hull's and the engine's own properties are not tested: where one of them is
-- nil, the check panics.
pub check_panics :
    (parts : ResolvedShipSlots)
    → (parts.hull.properties.hull ≡ none) ⊎ (parts.engine.properties.engine ≡ none)
    → check parts ≡ panic
unfolding check
check_panics parts h = ground arith
