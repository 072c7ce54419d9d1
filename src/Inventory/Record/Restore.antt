-- ===== src/Inventory/Record/Restore.antt =====
-- What a restored part has in common with its row, and that its properties are well formed.
use rocket_factory.Prelude.{◌≡◌, ◌≤◌, ℕ, ◌+◌, String, true, Option, none, some, ok, arith}
use rocket_factory.Prelude.Int.{pos, ◌≤ℤ◌}
use rocket_factory.Inventory.Properties.{
  PartProperties, engine_class_is_valid, shield_type_is_valid, weapon_type_is_valid, new_part_type,
  new_hull_properties, new_engine_properties, new_shield_properties, new_weapon_properties,
}
use rocket_factory.Inventory.Part.{Part}
use rocket_factory.Inventory.Record.{
  PartRecord, PartPropertiesRecord, part_properties_from_record, part_record_to_model, restore_part,
}

-- The columns that a restored part keeps.
pub record IsRestored (r : PartRecord) (p : Part) : Type 0 where
  pub uuid : p.uuid ≡ r.uuid
  pub part_type : p.part_type ≡ r.part_type
  pub stock_quantity : p.stock_quantity ≡ r.stock_quantity
  pub reserved : p.reserved ≡ r.reserved
  pub price : p.price ≡ r.price

abbrev one : {A : Type 0} → Option A → ℕ
one none = 0
one (some _) = 1

abbrev OnSome : {A : Type 0} → (A → Type 0) → Option A → Type 0
OnSome P none = Unit
OnSome P (some a) = P a

-- How many of the pointers are set.
abbrev count_set : PartProperties → ℕ
count_set p = one p.hull + one p.engine + one p.shield + one p.weapon

-- The value objects' own checks hold of every pointer that is set.
pub record IsWellFormed (p : PartProperties) : Type 0 where
  pub at_most_one : count_set p ≤ 1
  pub hull_in_range : OnSome (λ h. (pos 30 ≤ℤ h.strength) × (h.strength ≤ℤ pos 200)) p.hull
  pub engine_is_valid : OnSome (λ e. engine_class_is_valid e.class ≡ true) p.engine
  pub shield_is_valid : OnSome (λ s. shield_type_is_valid s.shield_type ≡ true) p.shield
  pub weapon_is_valid : OnSome (λ w. weapon_type_is_valid w.weapon_type ≡ true) p.weapon

-- Whatever the column holds, properties that were restored from it are well formed: at most one
-- of the four is set, and it passed the check of its constructor.
pub part_properties_from_record-IsWellFormed :
    (rec : PartPropertiesRecord) {props : PartProperties}
    → part_properties_from_record rec ≡ ok props
    → IsWellFormed props
unfolding part_properties_from_record new_hull_properties new_engine_properties
    new_shield_properties new_weapon_properties
part_properties_from_record-IsWellFormed rec h = ground arith

module _ (unmarshal : String → Option PartPropertiesRecord) where
  pub part_record_to_model-IsRestored :
      (r : PartRecord) {p : Part} → part_record_to_model unmarshal r ≡ ok p → IsRestored r p
  unfolding part_record_to_model new_part_type restore_part
  part_record_to_model-IsRestored r h = ground arith
