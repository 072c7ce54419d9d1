-- ===== src/Inventory/Tests/Queries.antt =====
-- The theorems on listings, compatibility checks and handlers of the inventory at concrete tables.
use rocket_factory.Prelude.{
  ◌≡◌, ◌↔◌, refl, none, some, [], ◌∷◌, arith, ok, err, map_result, if◌then◌else◌, ◌&&◌, true,
}
use rocket_factory.Prelude.Int.{pos}
use rocket_factory.Prelude.Counting.{is_distinct, all_in}
use rocket_factory.Inventory.Errors.{part_not_found}
use rocket_factory.Inventory.Properties.{
  HullProperties, EngineProperties, no_properties, new_engine_properties, engine_class_is_valid,
  new_part_type, new_hull_properties, can_support, conflicts_with,
}
use rocket_factory.Inventory.Record.{PartPropertiesRecord, part_properties_from_record}
use rocket_factory.Inventory.Repository
use rocket_factory.Inventory.Repository.{
  Table, list_parts, map_and_order, build_list_query, index, pick, by_name,
}
use rocket_factory.Inventory.Repository.Selection.{row_ids}
use rocket_factory.Inventory.Repository.Listing.{fetch, list_query, unless_fault, list_parts-eq}
use rocket_factory.Inventory.Compatibility.{
  ShipSlots, ResolvedShipSlots, check, zero_part, collect_uuids, validate_duplicate_uuids,
  check_seen, by_uuid_from, fill_slots,
}
use rocket_factory.Inventory.Compatibility.Check.{IsCompatible, check-IsCompatible}
use rocket_factory.Inventory.Compatibility.Resolve.{resolve_ship_slots, validate_compatibility}
use rocket_factory.Inventory.Compatibility.Outcome.{IsApproved, validate_compatibility-IsApproved}
use rocket_factory.Inventory.Tests.{unmarshal, quiet_db, table}

abbrev two : Table
two = table (pos 3) (pos 0)

abbrev slots : ShipSlots
slots = record { hull_uuid = 1; engine_uuid = 2; shield_uuid = 0; weapon_uuid = 0 }

-- What a run of the compatibility check computes with.
machinery : Unit {0}
unfolding validate_compatibility resolve_ship_slots Repository.list list_parts map_and_order index
    pick build_list_query part_properties_from_record new_engine_properties engine_class_is_valid
    new_part_type new_hull_properties check can_support conflicts_with collect_uuids
    validate_duplicate_uuids check_seen by_uuid_from fill_slots
machinery = tt

validate_run : validate_compatibility unmarshal quiet_db slots (two, tt) ≡ (ok tt, (two, tt))
unfolding machinery
validate_run = refl

validate_compatibility-IsApproved_example :
    IsApproved unmarshal two slots × ◌≡◌ {A = Table × Unit {0}} (two, tt) (two, tt)
validate_compatibility-IsApproved_example =
    validate_compatibility-IsApproved unmarshal quiet_db slots two tt (ground arith) validate_run

abbrev strong : HullProperties
strong = record { strength = pos 50 }

abbrev light : EngineProperties
light = record { class = "C"; required_strength = pos 30 }

abbrev fitted : ResolvedShipSlots
fitted = record {
  hull = record zero_part { properties = record no_properties { hull = some strong } };
  engine = record zero_part { properties = record no_properties { engine = some light } };
  shield = none;
  weapon = none;
}

check-IsCompatible_example : (check fitted ≡ ok tt) ↔ IsCompatible strong light none none
check-IsCompatible_example = check-IsCompatible fitted strong light refl refl

list_parts-eq_example :
    list_parts unmarshal quiet_db (record { uuids = 2 ∷ 1 ∷ []; part_type = "" }) true (two, tt) ≡ (
      unless_fault (quiet_db.select_fault (list_query (2 ∷ 1 ∷ []) true) two) (
          if is_distinct (2 ∷ 1 ∷ []) && all_in (2 ∷ 1 ∷ []) (row_ids two)
          then map_result (fetch unmarshal two) (2 ∷ 1 ∷ [])
          else err part_not_found),
      (two, tt),
    )
list_parts-eq_example =
    list_parts-eq unmarshal two quiet_db (2 ∷ 1 ∷ []) "" true tt refl (ground arith)

abbrev hull_record : PartPropertiesRecord
hull_record = record {
  hull = some (record { strength = pos 50 });
  engine = none;
  shield = none;
  weapon = none;
}

hull_properties_run :
    part_properties_from_record hull_record ≡ ok (record no_properties { hull = some strong })
unfolding machinery
hull_properties_run = refl
