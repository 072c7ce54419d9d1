-- ===== src/Inventory/Compatibility.antt =====
-- Which parts make a ship: the domain check (inventory/internal/service/domain) and the resolution
-- of a request's slots (inventory/internal/service/application/part/validate_compatibility.go).
pub mod Check
pub mod Slots
pub mod Resolve
pub mod Resolved
pub mod Outcome
use rocket_factory.Prelude.{
  ℕ, String, Bool, true, false, ◌&&◌, Option, none, some, List, [], ◌∷◌, Dict, lookup, insert,
  str_eq, ◌==◌, not, if◌then◌else◌, Result, ok, err, panic, nil_uuid, ◌>>=◌,
}
use rocket_factory.Prelude.Int.{pos}
use rocket_factory.Prelude.Action
use rocket_factory.Prelude.Action.{Action}
use rocket_factory.Inventory.Errors.{
  Error, invalid_uuid, part_not_found, part_type_mismatch, incompatible_parts,
}
use rocket_factory.Inventory.Properties.{
  HullProperties, EngineProperties, ShieldProperties, WeaponProperties, no_properties, can_support,
  conflicts_with, part_type_hull, part_type_engine, part_type_shield, part_type_weapon,
}
use rocket_factory.Inventory.Part.{Part}
use rocket_factory.Inventory.Record.{PartPropertiesRecord}
use rocket_factory.Inventory.Repository
use rocket_factory.Inventory.Repository.{Table, Postgres}

-- valueobject.ShipSlots
pub record ShipSlots : Type 0 where
  pub hull_uuid : ℕ
  pub engine_uuid : ℕ
  pub shield_uuid : ℕ
  pub weapon_uuid : ℕ

-- entity.ResolvedShipSlots
pub record ResolvedShipSlots : Type 0 where
  pub hull : Part
  pub engine : Part
  pub shield : Option Part
  pub weapon : Option Part

-- The call `hull.CanSupport(engine)` on pointers: a nil one is dereferenced.
abbrev pub support : Option HullProperties → Option EngineProperties → Result Error Bool
support none e = panic
support (some h) none = panic
support (some h) (some e) = ok (can_support h e)

abbrev pub shield_of : Option Part → Option ShieldProperties
shield_of none = none
shield_of (some p) = p.properties.shield

abbrev pub weapon_of : Option Part → Option WeaponProperties
weapon_of none = none
weapon_of (some p) = p.properties.weapon

abbrev pub conflict : Option ShieldProperties → Option WeaponProperties → Bool
conflict none w = false
conflict (some s) none = false
conflict (some s) (some w) = conflicts_with s w

-- (*compatibilityChecker).Check
unfoldable pub check : ResolvedShipSlots → Result Error (Unit {0})
unfolding can_support conflicts_with
check parts = do
  supported ← support parts.hull.properties.hull parts.engine.properties.engine
  (if not supported
      then err incompatible_parts
      else if conflict (shield_of parts.shield) (weapon_of parts.weapon)
      then err incompatible_parts
      else ok tt)

pub record SlotRequest : Type 0 where
  pub name : String
  pub uuid : ℕ
  pub part_type : String
  pub required : Bool

abbrev pub requests_of : ShipSlots → List SlotRequest
requests_of slots =
    record { name = "hull"; uuid = slots.hull_uuid; part_type = part_type_hull; required = true }
    ∷ record {
      name = "engine";
      uuid = slots.engine_uuid;
      part_type = part_type_engine;
      required = true;
    }
    ∷ record {
      name = "shield";
      uuid = slots.shield_uuid;
      part_type = part_type_shield;
      required = false;
    }
    ∷ record {
      name = "weapon";
      uuid = slots.weapon_uuid;
      part_type = part_type_weapon;
      required = false;
    }
    ∷ []

-- The loop that collects the identifiers and refuses a required slot without one.
unfoldable pub collect_uuids : List SlotRequest → Result Error (List ℕ)
collect_uuids [] = ok []
collect_uuids (r ∷ rs) =
    let rest = collect_uuids rs in
    if r.uuid == nil_uuid
    then (if r.required then err invalid_uuid else rest)
    else do us ← rest; ok (r.uuid ∷ us)

-- The loop of validateDuplicateUUIDs, with the slots seen so far.
unfoldable pub check_seen : Dict String → List SlotRequest → Result Error (Unit {0})
check_seen seen [] = ok tt
check_seen seen (r ∷ rs) =
    let skip = check_seen seen rs in
    let rest = check_seen (insert r.uuid r.name seen) rs in
    if r.uuid == nil_uuid
    then skip
    else elim (lookup r.uuid seen) [ some prev ↦ err invalid_uuid | none ↦ rest ]

-- validateDuplicateUUIDs
unfoldable pub validate_duplicate_uuids : List SlotRequest → Result Error (Unit {0})
unfolding check_seen
validate_duplicate_uuids = check_seen []

-- The loop that fills `byUUID`.
unfoldable pub by_uuid_from : List Part → Dict Part → Dict Part
by_uuid_from [] m = m
by_uuid_from (p ∷ ps) m = by_uuid_from ps (insert p.uuid p m)

-- The `switch` on the type of the slot.
abbrev pub place : String → Part → ResolvedShipSlots → ResolvedShipSlots
place part_type part resolved =
    if str_eq part_type part_type_hull
    then record resolved { hull = part }
    else if str_eq part_type part_type_engine
    then record resolved { engine = part }
    else if str_eq part_type part_type_shield
    then record resolved { shield = some part }
    else if str_eq part_type part_type_weapon
    then record resolved { weapon = some part }
    else resolved

abbrev pub fits : SlotRequest → Option Part → Result Error Part
fits r none = err part_not_found
fits r (some part) =
    if not (str_eq part.part_type r.part_type) then err part_type_mismatch else ok part

-- The loop that fills the slots.
unfoldable pub fill_slots :
    Dict Part → List SlotRequest → ResolvedShipSlots → Result Error ResolvedShipSlots
fill_slots by_uuid [] resolved = ok resolved
fill_slots by_uuid (r ∷ rs) resolved =
    let skip = fill_slots by_uuid rs resolved in
    let rest = λ (part : Part). fill_slots by_uuid rs (place r.part_type part resolved) in
    if r.uuid == nil_uuid then skip else fits r (lookup r.uuid by_uuid) >>= rest

-- `Part{}` and the zero `ResolvedShipSlots`
abbrev pub zero_part : Part
zero_part = record {
  uuid = nil_uuid;
  name = "";
  description = "";
  part_type = "";
  price = pos 0;
  stock_quantity = pos 0;
  reserved = pos 0;
  properties = no_properties;
  created_at = pos 0;
}

abbrev pub zero_slots : ResolvedShipSlots
zero_slots = record { hull = zero_part; engine = zero_part; shield = none; weapon = none }
