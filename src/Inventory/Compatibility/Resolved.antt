-- ===== src/Inventory/Compatibility/Resolved.antt =====
-- What resolveShipSlots returns, stated on the table
-- (inventory/internal/service/application/part/validate_compatibility.go).
use rocket_factory.Prelude.{
  ℕ, String, ◌≡◌, ◌≢◌, refl, sym, ◌∙◌, true, false, Option, none, some, List, [], ◌∷◌, Dict, lookup,
  insert, lookup-insert, contains, nil_uuid, ◌⊎◌, ok, arith, Bool-cases, inl, inr, map_result,
  map_result-cons, subst,
}
use rocket_factory.Inventory.Part.{Part}
use rocket_factory.Inventory.Record.{PartPropertiesRecord}
use rocket_factory.Inventory.Repository.{Table}
use rocket_factory.Inventory.Repository.Listing.{fetch}
use rocket_factory.Inventory.Repository.Batch.{fetch-uuid}
use rocket_factory.Inventory.Compatibility.{
  by_uuid_from, fill_slots, place, ShipSlots, ResolvedShipSlots, SlotRequest, requests_of,
  zero_slots,
}
use rocket_factory.Inventory.Compatibility.Slots.{uuids_of, lacks, fill_slots-eq-ok}
use rocket_factory.Prelude.Counting.{is_distinct}
use rocket_factory.Inventory.Properties.{
  part_type_hull, part_type_engine, part_type_shield, part_type_weapon,
}

module _ (unmarshal : String → Option PartPropertiesRecord) (t : Table) where
  absent-by_uuid :
      (us : List ℕ) (m : Dict Part) {ps : List Part} (u : ℕ)
      → map_result (fetch unmarshal t) us ≡ ok ps
      → contains u us ≡ false
      → lookup u (by_uuid_from ps m) ≡ lookup u m
  unfolding by_uuid_from
  absent-by_uuid [] m {ps = []} u h out = refl
  absent-by_uuid [] m {ps = p ∷ ps} u h out = cc
  absent-by_uuid (v ∷ us) m {ps} u h out =
      let (p, ps', fetched, hs, eps) = map_result-cons (fetch unmarshal t) v us h in
      rw eps (
        absent-by_uuid us (insert p.uuid p m) u hs (ground (arith, out))
        ∙ ground (arith, out, lookup-insert u p.uuid p m, fetch-uuid unmarshal t v fetched))

  -- The dictionary holds under each identifier of the request the part that the table has for it.
  pub lookup-by_uuid :
      (us : List ℕ) (m : Dict Part) {ps : List Part} (u : ℕ)
      → map_result (fetch unmarshal t) us ≡ ok ps
      → contains u us ≡ true
      → (p : Part) × (fetch unmarshal t u ≡ ok p) × (lookup u (by_uuid_from ps m) ≡ some p)
  unfolding by_uuid_from
  lookup-by_uuid [] m u h inside = cc
  lookup-by_uuid (v ∷ us) m {ps} u h inside =
      let (p, ps', fetched, hs, eps) = map_result-cons (fetch unmarshal t) v us h in
      elim (Bool-cases (contains u us)) [
        | inl later ↦ rw eps (lookup-by_uuid us (insert p.uuid p m) u hs later)
        | inr here ↦
            let same : u ≡ v = ground (arith, inside, here) in
            (
              p,
              subst (λ i. fetch unmarshal t i ≡ ok p) (sym same) fetched,
              rw eps (
                  absent-by_uuid us (insert p.uuid p m) u hs here
                  ∙ ground
                      (arith, same, lookup-insert u p.uuid p m, fetch-uuid unmarshal t v fetched)),
            )
      ]

  -- An optional slot holds the part of its identifier, or nothing where it has none.
  abbrev pub Filled : ℕ → String → Option Part → Type 0
  Filled u part_type none = u ≡ nil_uuid
  Filled u part_type (some p) =
      (u ≢ nil_uuid) × (fetch unmarshal t u ≡ ok p) × (p.part_type ≡ part_type)

  -- Every slot of the request holds the table's part for its identifier, of the slot's type.
  pub record IsResolved (slots : ShipSlots) (res : ResolvedShipSlots) : Type 0 where
    pub hull : Filled slots.hull_uuid part_type_hull (some res.hull)
    pub engine : Filled slots.engine_uuid part_type_engine (some res.engine)
    pub shield : Filled slots.shield_uuid part_type_shield res.shield
    pub weapon : Filled slots.weapon_uuid part_type_weapon res.weapon
    pub distinct : is_distinct (uuids_of (requests_of slots)) ≡ true

  module _ (slots : ShipSlots) {ps : List Part} (all : lacks (requests_of slots) ≡ false)
      (fetched : map_result (fetch unmarshal t) (uuids_of (requests_of slots)) ≡ ok ps) where
    -- A round of the loop puts the fetched part into its slot.
    round :
        (r : SlotRequest) (rs : List SlotRequest) (start : ResolvedShipSlots)
        {res : ResolvedShipSlots}
        → (r.uuid ≢ 0 → contains r.uuid (uuids_of (requests_of slots)) ≡ true)
        → fill_slots (by_uuid_from ps []) (r ∷ rs) start ≡ ok res
        → ((r.uuid ≡ 0) × (fill_slots (by_uuid_from ps []) rs start ≡ ok res))
          ⊎ ((p : Part) × (Filled r.uuid r.part_type (some p))
              × (fill_slots (by_uuid_from ps []) rs (place r.part_type p start) ≡ ok res))
    round r rs start named h = elim (fill_slots-eq-ok (by_uuid_from ps []) r rs start h) [
      | inl (zero_id, rest) ↦ inl (zero_id, rest)
      | inr (p, there, found, typed, rest) ↦
          let (q, from_table, found') =
            lookup-by_uuid (uuids_of (requests_of slots)) [] r.uuid fetched (named there) in
          inr (p, (there, from_table ∙ cc (found, found'), typed), rest)
    ]

    -- A required slot has an identifier, so its round finds a part.
    needed :
        (r : SlotRequest) (rs : List SlotRequest) (start : ResolvedShipSlots)
        {res : ResolvedShipSlots}
        → r.uuid ≢ 0
        → contains r.uuid (uuids_of (requests_of slots)) ≡ true
        → fill_slots (by_uuid_from ps []) (r ∷ rs) start ≡ ok res
        → (p : Part) × (Filled r.uuid r.part_type (some p))
          × (fill_slots (by_uuid_from ps []) rs (place r.part_type p start) ≡ ok res)
    needed r rs start there named h = elim (round r rs start (λ _. named) h) [
      | inl (zero_id, rest) ↦ absurd (there zero_id)
      | inr found ↦ found
    ]

    done :
        (start : ResolvedShipSlots) {res : ResolvedShipSlots}
        → fill_slots (by_uuid_from ps []) [] start ≡ ok res
        → start ≡ res
    unfolding fill_slots
    done start h = cc

    pub filled :
        {res : ResolvedShipSlots}
        → is_distinct (uuids_of (requests_of slots)) ≡ true
        → fill_slots (by_uuid_from ps []) (requests_of slots) zero_slots ≡ ok res
        → IsResolved slots res
    filled {res} distinct h =
        let (hull, hull_filled, h1) = needed _ _ _ (ground (arith, all)) (ground (arith, all)) h in
        let (engine, engine_filled, h2) =
          needed _ _ _ (ground (arith, all)) (ground (arith, all)) h1 in
        elim (round _ _ _ (λ there. ground (arith, there)) h2) [
          | inl (no_shield, h3) ↦ elim (round _ _ _ (λ there. ground (arith, there)) h3) [
            | inl (no_weapon, h4) ↦ subst (IsResolved slots) (done _ h4) (record {
              hull = hull_filled;
              engine = engine_filled;
              shield = no_shield;
              weapon = no_weapon;
              distinct = distinct;
            })
            | inr (w, w_filled, h4) ↦ subst (IsResolved slots) (done _ h4) (record {
              hull = hull_filled;
              engine = engine_filled;
              shield = no_shield;
              weapon = w_filled;
              distinct = distinct;
            })
          ]
          | inr (s, s_filled, h3) ↦ elim (round _ _ _ (λ there. ground (arith, there)) h3) [
            | inl (no_weapon, h4) ↦ subst (IsResolved slots) (done _ h4) (record {
              hull = hull_filled;
              engine = engine_filled;
              shield = s_filled;
              weapon = no_weapon;
              distinct = distinct;
            })
            | inr (w, w_filled, h4) ↦ subst (IsResolved slots) (done _ h4) (record {
              hull = hull_filled;
              engine = engine_filled;
              shield = s_filled;
              weapon = w_filled;
              distinct = distinct;
            })
          ]
        ]
