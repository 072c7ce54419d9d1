-- ===== src/Inventory/Properties.antt =====
-- The value objects of inventory/internal/model/valueobject. The named string types are texts, as
-- in the source, so that a value outside the declared constants can be expressed.
use rocket_factory.Prelude.{
  String, Bool, Option, none, some, ◌&&◌, ◌||◌, str_eq, if◌then◌else◌, Result, ok, err,
}
use rocket_factory.Prelude.Int.{ℤ, pos, ltb_ℤ, leb_ℤ}
use rocket_factory.Inventory.Errors.{Error, invalid_properties}

abbrev pub part_type_engine : String
part_type_engine = "ENGINE"

abbrev pub part_type_hull : String
part_type_hull = "HULL"

abbrev pub part_type_shield : String
part_type_shield = "SHIELD"

abbrev pub part_type_weapon : String
part_type_weapon = "WEAPON"

abbrev pub part_type_unspecified : String
part_type_unspecified = "UNSPECIFIED"

-- NewPartType
unfoldable pub new_part_type : String → Result Error String
new_part_type s =
    if str_eq s part_type_hull
      || str_eq s part_type_engine
      || str_eq s part_type_shield
      || str_eq s part_type_weapon
    then ok s
    else err invalid_properties

pub record HullProperties : Type 0 where
  pub strength : ℤ

pub record EngineProperties : Type 0 where
  pub class : String
  pub required_strength : ℤ

pub record ShieldProperties : Type 0 where
  pub shield_type : String

pub record WeaponProperties : Type 0 where
  pub weapon_type : String

-- Pointers to the properties of each type; `none` is nil.
pub record PartProperties : Type 0 where
  pub hull : Option HullProperties
  pub engine : Option EngineProperties
  pub shield : Option ShieldProperties
  pub weapon : Option WeaponProperties

-- `PartProperties{}`
abbrev pub no_properties : PartProperties
no_properties = record { hull = none; engine = none; shield = none; weapon = none }

-- NewHullProperties
unfoldable pub new_hull_properties : ℤ → Result Error PartProperties
new_hull_properties strength =
    if ltb_ℤ strength (pos 30) || ltb_ℤ (pos 200) strength
    then err invalid_properties
    else ok (record no_properties { hull = some (record { strength = strength }) })

-- CanSupport
unfoldable pub can_support : HullProperties → EngineProperties → Bool
can_support h e = leb_ℤ e.required_strength h.strength

abbrev pub energy_shield : String
energy_shield = "energy"

abbrev pub plasma_shield : String
plasma_shield = "plasma"

abbrev pub laser_weapon : String
laser_weapon = "laser"

abbrev pub missile_weapon : String
missile_weapon = "missile"

-- EngineClass.IsValid
unfoldable pub engine_class_is_valid : String → Bool
engine_class_is_valid c = str_eq c "A" || str_eq c "B" || str_eq c "C"

-- ShieldType.IsValid
unfoldable pub shield_type_is_valid : String → Bool
shield_type_is_valid s = str_eq s energy_shield || str_eq s plasma_shield

-- WeaponType.IsValid
unfoldable pub weapon_type_is_valid : String → Bool
weapon_type_is_valid w = str_eq w laser_weapon || str_eq w missile_weapon

-- NewEngineProperties
unfoldable pub new_engine_properties : String → ℤ → Result Error PartProperties
new_engine_properties class required_strength =
    if engine_class_is_valid class
    then ok (record no_properties {
      engine = some (record { class = class; required_strength = required_strength });
    })
    else err invalid_properties

-- NewShieldProperties
unfoldable pub new_shield_properties : String → Result Error PartProperties
new_shield_properties shield_type =
    if shield_type_is_valid shield_type
    then ok (record no_properties { shield = some (record { shield_type = shield_type }) })
    else err invalid_properties

-- NewWeaponProperties
unfoldable pub new_weapon_properties : String → Result Error PartProperties
new_weapon_properties weapon_type =
    if weapon_type_is_valid weapon_type
    then ok (record no_properties { weapon = some (record { weapon_type = weapon_type }) })
    else err invalid_properties

-- ConflictsWith
unfoldable pub conflicts_with : ShieldProperties → WeaponProperties → Bool
conflicts_with s w = str_eq s.shield_type plasma_shield && str_eq w.weapon_type laser_weapon
