-- ===== src/Inventory/Tests.antt =====
-- The theorems on the inventory service at concrete tables, and runs of the model.
mod Queries
use mathlib.Core.List.Permᴰ
use rocket_factory.Prelude.{
  String, ◌≡◌, refl, Option, none, some, [], ◌∷◌, arith, str_eq, if◌then◌else◌, ok, TxManager,
  direct_tx,
}
use rocket_factory.Prelude.Int.{ℤ, pos, ◌+ℤ◌, ◌-ℤ◌, ◌<ℤ◌}
use rocket_factory.Inventory.Errors.{Error}
use rocket_factory.Inventory.Properties.{
  no_properties, new_engine_properties, engine_class_is_valid, new_part_type, new_hull_properties,
}
use rocket_factory.Inventory.Part
use rocket_factory.Inventory.Part.{Part}
use rocket_factory.Inventory.Part.Stock.{IsStocked, release-reserve, commit-reserve}
use rocket_factory.Inventory.Record.{PartRecord, PartPropertiesRecord, part_properties_from_record}
use rocket_factory.Inventory.Repository.{
  Table, Postgres, list_for_update, list_parts, map_and_order, build_list_query,
  update_reserved_batch, rows_affected, update_rows,
}
use rocket_factory.Inventory.Service.{reserve, release, commit}
use rocket_factory.Inventory.Service.Rows.{IsStockedTable}
use rocket_factory.Inventory.Service.Reservation.{
  KeepsStock, Changed, stock_invariant, reserve_effect, release_effect, commit_effect,
}

abbrev pub unmarshal : String → Option PartPropertiesRecord
unmarshal s =
    if str_eq s "hull"
    then some (record {
      hull = some (record { strength = pos 50 });
      engine = none;
      shield = none;
      weapon = none;
    })
    else if str_eq s "engine"
    then some (record {
      hull = none;
      engine = some (record { class = "C"; required_strength = pos 30 });
      shield = none;
      weapon = none;
    })
    else none

-- A database without faults.
abbrev pub quiet_db : Postgres
quiet_db = record {
  select_fault = λ q t. none;
  get_fault = λ u t. none;
  update_fault = λ ps t. none;
  arrange = λ o rows. rows;
  arrange_perm = λ o rows. Permᴰ.refl rows;
}

abbrev pub tx : TxManager Error Table (Unit {0})
tx = direct_tx

abbrev pub hull_row : ℤ → ℤ → PartRecord
hull_row stock taken = record {
  uuid = 1;
  name = "Aluminium hull";
  description = "";
  part_type = "HULL";
  price = pos 500000;
  stock_quantity = stock;
  reserved = taken;
  properties = "hull";
  created_at = pos 0;
}

abbrev pub engine_row : ℤ → ℤ → PartRecord
engine_row stock taken = record {
  uuid = 2;
  name = "Ion engine C";
  description = "";
  part_type = "ENGINE";
  price = pos 300000;
  stock_quantity = stock;
  reserved = taken;
  properties = "engine";
  created_at = pos 0;
}

abbrev pub table : ℤ → ℤ → Table
table h e = hull_row (pos 10) h ∷ engine_row (pos 8) e ∷ []

table-IsStockedTable : IsStockedTable (table (pos 3) (pos 0))
table-IsStockedTable = ground arith

-- What a run of the service computes with.
machinery : Unit {0}
unfolding list_for_update list_parts map_and_order build_list_query part_properties_from_record
    new_engine_properties engine_class_is_valid new_part_type new_hull_properties Part.reserve
    Part.release Part.commit update_reserved_batch rows_affected update_rows reserve release commit
machinery = tt

reserve_run :
    reserve unmarshal quiet_db tx (2 ∷ 1 ∷ []) (table (pos 3) (pos 0), tt)
    ≡ (ok tt, (table (pos 4) (pos 1), tt))
unfolding machinery
reserve_run = refl

abbrev reserved_one : PartRecord → PartRecord
reserved_one r = record r { reserved = r.reserved +ℤ pos 1 }

abbrev released_one : PartRecord → PartRecord
released_one r = record r { reserved = r.reserved -ℤ pos 1 }

abbrev committed_one : PartRecord → PartRecord
committed_one r = record r {
  reserved = r.reserved -ℤ pos 1;
  stock_quantity = r.stock_quantity -ℤ pos 1;
}

stock_invariant_example :
    KeepsStock (reserve unmarshal quiet_db tx (1 ∷ []))
    × KeepsStock (release unmarshal quiet_db tx (1 ∷ []))
    × KeepsStock (commit unmarshal quiet_db tx (1 ∷ []))
stock_invariant_example = stock_invariant unmarshal quiet_db tx (1 ∷ [])

reserve_effect_example :
    Changed
      (2 ∷ 1 ∷ [])
      reserved_one
      (λ r. r.reserved <ℤ r.stock_quantity)
      (table (pos 3) (pos 0))
      (table (pos 4) (pos 1))
reserve_effect_example =
    reserve_effect unmarshal quiet_db tx (2 ∷ 1 ∷ []) (table (pos 3) (pos 0))
      (table (pos 4) (pos 1)) tt tt table-IsStockedTable reserve_run

release_run :
    release unmarshal quiet_db tx (1 ∷ []) (table (pos 3) (pos 0), tt)
    ≡ (ok tt, (table (pos 2) (pos 0), tt))
unfolding machinery
release_run = refl

release_effect_example :
    Changed
      (1 ∷ [])
      released_one
      (λ r. pos 0 <ℤ r.reserved)
      (table (pos 3) (pos 0))
      (table (pos 2) (pos 0))
release_effect_example =
    release_effect unmarshal quiet_db tx (1 ∷ []) (table (pos 3) (pos 0)) (table (pos 2) (pos 0)) tt
      tt table-IsStockedTable release_run

abbrev after_commit : Table
after_commit = hull_row (pos 9) (pos 2) ∷ engine_row (pos 8) (pos 0) ∷ []

commit_run :
    commit unmarshal quiet_db tx (1 ∷ []) (table (pos 3) (pos 0), tt) ≡ (ok tt, (after_commit, tt))
unfolding machinery
commit_run = refl

commit_effect_example :
    Changed (1 ∷ []) committed_one (λ r. pos 0 <ℤ r.reserved) (table (pos 3) (pos 0)) after_commit
commit_effect_example =
    commit_effect unmarshal quiet_db tx (1 ∷ []) (table (pos 3) (pos 0)) after_commit tt tt
      table-IsStockedTable commit_run

abbrev hull_part : Part
hull_part = record {
  uuid = 1;
  name = "Aluminium hull";
  description = "";
  part_type = "HULL";
  price = pos 500000;
  stock_quantity = pos 10;
  reserved = pos 3;
  properties = record no_properties { hull = some (record { strength = pos 50 }) };
  created_at = pos 0;
}

hull_part-IsStocked : IsStocked hull_part
hull_part-IsStocked = ground arith

reserve_part_run : Part.reserve hull_part ≡ ok (record hull_part { reserved = pos 4 })
unfolding Part.reserve
reserve_part_run = refl
