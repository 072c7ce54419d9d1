-- ===== src/Inventory/Compatibility/Slots.antt =====
-- The loops over the slots of a request
-- (inventory/internal/service/application/part/validate_compatibility.go).
use rocket_factory.Prelude.{
  ℕ, String, ◌≡◌, ◌≢◌, refl, Bool, true, false, ◌&&◌, ◌||◌, not, Option, none, some, List, [], ◌∷◌,
  Dict, lookup, insert, keys, contains, contains-keys, contains-keys-insert, ◌==◌, if◌then◌else◌,
  ok, err, arith, Bool-cases, inl, inr, ◌⊎◌, eq_iff, >>=-eq-ok,
}
use rocket_factory.Prelude.Counting.{is_distinct}
use rocket_factory.Inventory.Errors.{invalid_uuid}
use rocket_factory.Inventory.Part.{Part}
use rocket_factory.Inventory.Compatibility.{
  SlotRequest, check_seen, validate_duplicate_uuids, collect_uuids, fill_slots, fits, place,
  ResolvedShipSlots,
}

-- The identifiers of the slots that have one.
abbrev pub uuids_of : List SlotRequest → List ℕ
uuids_of [] = []
uuids_of (r ∷ rs) = let rest = uuids_of rs in if r.uuid == 0 then rest else r.uuid ∷ rest

abbrev pub disjoint : List ℕ → Dict String → Bool
disjoint [] seen = true
disjoint (u ∷ us) seen = not (contains u (keys seen)) && disjoint us seen

disjoint-insert :
    (us : List ℕ) (u : ℕ) (name : String) (seen : Dict String)
    → disjoint us (insert u name seen) ≡ (not (contains u us) && disjoint us seen)
disjoint-insert [] u name seen = refl
disjoint-insert (v ∷ us) u name seen =
    ground (arith, disjoint-insert us u name seen, contains-keys-insert v u name seen)

check_seen-eq :
    (rs : List SlotRequest) (seen : Dict String)
    → check_seen seen rs ≡ (
        if is_distinct (uuids_of rs) && disjoint (uuids_of rs) seen
        then ok tt
        else err invalid_uuid)
unfolding check_seen
check_seen-eq [] seen = refl
check_seen-eq (r ∷ rs) seen = elim (Bool-cases (r.uuid == 0)) [
  | inl e ↦ rw e (check_seen-eq rs seen)
  | inr e ↦ ground (
    arith,
    e,
    contains-keys r.uuid seen,
    check_seen-eq rs (insert r.uuid r.name seen),
    disjoint-insert (uuids_of rs) r.uuid r.name seen,
  )
]

disjoint-nil : (us : List ℕ) → disjoint us [] ≡ true
disjoint-nil [] = refl
disjoint-nil (u ∷ us) = disjoint-nil us

-- validateDuplicateUUIDs passes exactly when no two slots have the same identifier; slots without
-- one do not count.
pub validate_duplicate_uuids-eq :
    (rs : List SlotRequest)
    → validate_duplicate_uuids rs ≡ (if is_distinct (uuids_of rs) then ok tt else err invalid_uuid)
unfolding validate_duplicate_uuids
validate_duplicate_uuids-eq rs = ground (arith, check_seen-eq rs [], disjoint-nil (uuids_of rs))

-- Whether some required slot has no identifier.
abbrev pub lacks : List SlotRequest → Bool
lacks [] = false
lacks (r ∷ rs) = (r.uuid == 0 && r.required) || lacks rs

pub collect_uuids-eq :
    (rs : List SlotRequest)
    → collect_uuids rs ≡ (if lacks rs then err invalid_uuid else ok (uuids_of rs))
unfolding collect_uuids
collect_uuids-eq [] = refl
collect_uuids-eq (r ∷ rs) = ground (arith, collect_uuids-eq rs)

fits-eq-ok :
    (r : SlotRequest) (o : Option Part) {p : Part}
    → fits r o ≡ ok p
    → (o ≡ some p) × (p.part_type ≡ r.part_type)
fits-eq-ok r none h = cc
fits-eq-ok r (some q) h = ground (arith, h, eq_iff q.part_type r.part_type)

-- One round of the loop that fills the slots.
pub fill_slots-eq-ok :
    (m : Dict Part) (r : SlotRequest) (rs : List SlotRequest) (start : ResolvedShipSlots)
    {res : ResolvedShipSlots}
    → fill_slots m (r ∷ rs) start ≡ ok res
    → ((r.uuid ≡ 0) × (fill_slots m rs start ≡ ok res))
      ⊎ ((p : Part) × (r.uuid ≢ 0)
          × (lookup r.uuid m ≡ some p)
          × (p.part_type ≡ r.part_type)
          × (fill_slots m rs (place r.part_type p start) ≡ ok res))
unfolding fill_slots
fill_slots-eq-ok m r rs start h = elim (Bool-cases (r.uuid == 0)) [
  | inl e ↦ inl (ground arith, ground (arith, h, e))
  | inr e ↦
      let found = rw e at h in
      let (p, fit, rest) =
        >>=-eq-ok (fits r (lookup r.uuid m)) (λ p. fill_slots m rs (place r.part_type p start))
          found in
      let (there, typed) = fits-eq-ok r (lookup r.uuid m) fit in
      inr (p, ground arith, there, typed, rest)
]
