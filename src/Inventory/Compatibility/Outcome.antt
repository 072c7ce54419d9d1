-- ===== src/Inventory/Compatibility/Outcome.antt =====
-- When ValidateCompatibility answers without an error
-- (inventory/internal/service/application/part/validate_compatibility.go).
use rocket_factory.Prelude.{
  String, ◌≡◌, sym, ◌∙◌, ap, Bool, Bool-cases, true, false, inl, inr, Option, some, none, [],
  IsDistinct, Result, ok, arith, Option-cases, err, map_result, ◌&&◌, if◌then◌else◌,
}
use rocket_factory.Prelude.Action
use rocket_factory.Prelude.Action.{lift}
use rocket_factory.Prelude.Counting.{is_distinct, all_in}
use rocket_factory.Inventory.Errors.{Error, part_not_found}
use rocket_factory.Inventory.Properties.{HullProperties, EngineProperties}
use rocket_factory.Inventory.Record.{PartPropertiesRecord}
use rocket_factory.Inventory.Repository.{Table, Postgres, list}
use rocket_factory.Inventory.Repository.Selection.{row_ids}
use rocket_factory.Inventory.Repository.Listing.{list_parts-eq, fetch, unless_fault, list_query}
use rocket_factory.Inventory.Compatibility.{
  ShipSlots, ResolvedShipSlots, requests_of, by_uuid_from, fill_slots, zero_slots, check, shield_of,
  weapon_of,
}
use rocket_factory.Inventory.Compatibility.Check.{IsCompatible, check-IsCompatible}
use rocket_factory.Inventory.Compatibility.Slots.{
  uuids_of, lacks, collect_uuids-eq, validate_duplicate_uuids-eq,
}
use rocket_factory.Inventory.Compatibility.Resolve.{resolve_ship_slots, validate_compatibility}
use rocket_factory.Inventory.Compatibility.Resolved.{IsResolved, filled}

-- The parts are there, of the right types, and fit together.
pub record IsApproved (unmarshal : String → Option PartPropertiesRecord) (t : Table)
    (slots : ShipSlots) : Type 0 where
  pub parts : ResolvedShipSlots
  pub resolved : IsResolved unmarshal t slots parts
  pub hull : HullProperties
  pub engine : EngineProperties
  pub has_hull : parts.hull.properties.hull ≡ some hull
  pub has_engine : parts.engine.properties.engine ≡ some engine
  pub compatible : IsCompatible hull engine (shield_of parts.shield) (weapon_of parts.weapon)

check-eq-ok :
    (parts : ResolvedShipSlots)
    → check parts ≡ ok tt
    → (h : HullProperties) × (e : EngineProperties) × (parts.hull.properties.hull ≡ some h)
      × (parts.engine.properties.engine ≡ some e)
unfolding check
check-eq-ok parts h = elim (Option-cases parts.hull.properties.hull) [
  | inl no_hull ↦ ground (arith, h, no_hull)
  | inr (hull, has_hull) ↦ elim (Option-cases parts.engine.properties.engine) [
    | inl no_engine ↦ ground (arith, h, has_hull, no_engine)
    | inr (engine, has_engine) ↦ (hull, engine, has_hull, has_engine)
  ]
]

unless_fault-eq-ok :
    {A : Type 0} (o : Option Error) {r : Result Error A} {a : A}
    → unless_fault o r ≡ ok a
    → r ≡ ok a
unless_fault-eq-ok none h = h
unless_fault-eq-ok (some e) h = cc

if_ok :
    {A : Type 0} (b : Bool) {r : Result Error A} {a : A}
    → (if b then r else err part_not_found) ≡ ok a
    → r ≡ ok a
if_ok true h = h
if_ok false h = cc

module _ (unmarshal : String → Option PartPropertiesRecord) (db : Postgres) {X : Type 0} where
  resolve_ship_slots-IsResolved :
      (slots : ShipSlots) (t : Table) (x : X) {res : ResolvedShipSlots} {w' : Table × X}
      → IsDistinct (row_ids t)
      → resolve_ship_slots unmarshal db slots (t, x) ≡ (ok res, w')
      → IsResolved unmarshal t slots res × (w' ≡ (t, x))
  unfolding resolve_ship_slots list
  resolve_ship_slots-IsResolved slots t x {w' = w'} d h =
      elim (Bool-cases (lacks (requests_of slots))) [
        | inl bad ↦ let h' = rw (collect_uuids-eq (requests_of slots), bad) at h in cc
        | inr all ↦ elim (Bool-cases (is_distinct (uuids_of (requests_of slots)))) [
          | inr repeated ↦
              let h' =
                rw
                  (
                    collect_uuids-eq (requests_of slots),
                    all,
                    validate_duplicate_uuids-eq (requests_of slots),
                    repeated,
                  )
                  at h in
              cc
          | inl distinct ↦
              let h' =
                rw
                  (
                    collect_uuids-eq (requests_of slots),
                    all,
                    validate_duplicate_uuids-eq (requests_of slots),
                    distinct,
                    list_parts-eq unmarshal t db (uuids_of (requests_of slots)) "" false x
                        (ground (arith, all)) d,
                  )
                  at h in
              let (parts, listed, h3) =
                Action.continue-eq-ok
                  (unless_fault
                    (db.select_fault (list_query (uuids_of (requests_of slots)) false) t)
                    (if is_distinct (uuids_of (requests_of slots))
                        && all_in (uuids_of (requests_of slots)) (row_ids t)
                      then map_result (fetch unmarshal t) (uuids_of (requests_of slots))
                      else err part_not_found))
                  (λ parts.
                    lift (fill_slots (by_uuid_from parts []) (requests_of slots) zero_slots))
                  (t, x) w' h' in
              (
                filled unmarshal t slots all (if_ok _ (unless_fault-eq-ok _ listed)) distinct
                    (ap (λ v. v.0) h3),
                sym (ap (λ v. v.1) h3),
              )
        ]
      ]

  -- On a table with unique identifiers, ValidateCompatibility answers without an error only for
  -- slots that have, in the table at that moment, a part of the right type each, with a hull that
  -- carries the engine and a shield that the weapon does not disturb; it leaves the table as it
  -- was.
  pub validate_compatibility-IsApproved :
      (slots : ShipSlots) (t : Table) (x : X) {w' : Table × X}
      → IsDistinct (row_ids t)
      → validate_compatibility unmarshal db slots (t, x) ≡ (ok tt, w')
      → IsApproved unmarshal t slots × (w' ≡ (t, x))
  unfolding validate_compatibility
  validate_compatibility-IsApproved slots t x {w' = w'} d h =
      let run = resolve_ship_slots unmarshal db slots (t, x) in
      let (parts, found, h2) =
        Action.>>=-eq-ok (resolve_ship_slots unmarshal db slots) (λ parts. lift (check parts))
          (t, x) w' h in
      let checked : check parts ≡ ok tt = ap (λ v. v.0) h2 in
      let (resolved, same) =
        resolve_ship_slots-IsResolved slots t x d (ap (λ r. (r, run.1)) found) in
      let (hull, engine, has_hull, has_engine) = check-eq-ok parts checked in
      (
        record {
          parts = parts;
          resolved = resolved;
          hull = hull;
          engine = engine;
          has_hull = has_hull;
          has_engine = has_engine;
          compatible = (check-IsCompatible parts hull engine has_hull has_engine).0 checked;
        },
        sym (ap (λ v. v.1) h2) ∙ same,
      )
