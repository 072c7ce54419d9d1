-- ===== src/Inventory/Record.antt =====
-- Rows of the table `parts` and their conversion to the domain model
-- (inventory/internal/repository/record, inventory/internal/repository/converter/part.go).
pub mod Restore
use rocket_factory.Prelude.{ℕ, String, Option, none, some, if◌then◌else◌, Result, ok, err, ◌>>=◌}
use rocket_factory.Prelude.Int.{ℤ}
use rocket_factory.Inventory.Errors.{Error, other}
use rocket_factory.Inventory.Properties.{
  PartProperties, no_properties, new_part_type, new_hull_properties, new_engine_properties,
  new_shield_properties, new_weapon_properties,
}
use rocket_factory.Inventory.Part.{Part}

pub record HullPropertiesRecord : Type 0 where
  pub strength : ℤ

pub record EnginePropertiesRecord : Type 0 where
  pub class : String
  pub required_strength : ℤ

pub record ShieldPropertiesRecord : Type 0 where
  pub shield_type : String

pub record WeaponPropertiesRecord : Type 0 where
  pub weapon_type : String

pub record PartPropertiesRecord : Type 0 where
  pub hull : Option HullPropertiesRecord
  pub engine : Option EnginePropertiesRecord
  pub shield : Option ShieldPropertiesRecord
  pub weapon : Option WeaponPropertiesRecord

-- A row; `properties` is the text of the JSONB column.
pub record PartRecord : Type 0 where
  pub uuid : ℕ
  pub name : String
  pub description : String
  pub part_type : String
  pub price : ℤ
  pub stock_quantity : ℤ
  pub reserved : ℤ
  pub properties : String
  pub created_at : ℤ

-- RestorePart
unfoldable pub restore_part : ℕ → String → String → String → ℤ → ℤ → ℤ → PartProperties → ℤ → Part
restore_part uuid name description part_type price stock_quantity reserved properties created_at =
    record {
      uuid = uuid;
      name = name;
      description = description;
      part_type = part_type;
      price = price;
      stock_quantity = stock_quantity;
      reserved = reserved;
      properties = properties;
      created_at = created_at;
    }

-- The `switch` over the pointers, in the order of its cases.
abbrev first_properties :
    Option HullPropertiesRecord
    → Option EnginePropertiesRecord
    → Option ShieldPropertiesRecord
    → Option WeaponPropertiesRecord
    → Result Error PartProperties
first_properties (some h) e s w = new_hull_properties h.strength
first_properties none (some e) s w = new_engine_properties e.class e.required_strength
first_properties none none (some s) w = new_shield_properties s.shield_type
first_properties none none none (some w) = new_weapon_properties w.weapon_type
first_properties none none none none = ok no_properties

-- partPropertiesFromRecord
unfoldable pub part_properties_from_record : PartPropertiesRecord → Result Error PartProperties
part_properties_from_record rec = first_properties rec.hull rec.engine rec.shield rec.weapon

abbrev or_other : {A : Type 0} → Option A → Result Error A
or_other none = err other
or_other (some a) = ok a

module _ (unmarshal : String → Option PartPropertiesRecord) where
  -- PartRecordToModel; `unmarshal` is json.Unmarshal into a PartPropertiesRecord, `none` an error.
  unfoldable pub part_record_to_model : PartRecord → Result Error Part
  unfolding restore_part
  part_record_to_model rec = do
    props_rec ← or_other (unmarshal rec.properties)
    props ← part_properties_from_record props_rec
    part_type ← new_part_type rec.part_type
    ok (
        restore_part rec.uuid rec.name rec.description part_type rec.price rec.stock_quantity
          rec.reserved props rec.created_at)
