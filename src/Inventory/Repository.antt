-- ===== src/Inventory/Repository.antt =====
-- The parts repository (inventory/internal/repository/part): the query that `list` builds, the
-- mapping of its rows, and the batched write of the counters.
pub mod Selection
pub mod Listing
pub mod Batch
pub mod Catalogue
use mathlib.Core.List.{Permᴰ}
use rocket_factory.Prelude.{
  ℕ, suc, String, ◌≡◌, Bool, true, false, not, ◌&&◌, Option, none, some, List, [], ◌∷◌, map, length,
  filter_by, contains, Dict, lookup, insert, str_eq, ◌==◌, if◌then◌else◌, Result, ok, err,
  map_result,
}
use rocket_factory.Prelude.Int.{ℤ}
use rocket_factory.Prelude.Action.{Action, lift, fail_if, ◌>>=◌, ◌>>◌}
use rocket_factory.Inventory.Errors.{Error, part_not_found, no_part_were_updated}
use rocket_factory.Inventory.Properties.{part_type_unspecified}
use rocket_factory.Inventory.Part.{Part}
use rocket_factory.Inventory.Record.{PartRecord, PartPropertiesRecord, part_record_to_model}

-- input.PartFilter
pub record PartFilter : Type 0 where
  pub uuids : List ℕ
  pub part_type : String

pub data OrderBy : Type 0 where
  by_uuid by_name : OrderBy

-- The SELECT over `parts` that squirrel is told to build: its two optional WHERE clauses, its
-- ORDER BY, and whether FOR UPDATE is appended.
pub record SelectQuery : Type 0 where
  pub where_uuids : Option (List ℕ)
  pub where_part_type : Option String
  pub order_by : OrderBy
  pub for_update : Bool

abbrev pub is_empty : {A : Type 0} → List A → Bool
is_empty [] = true
is_empty (_ ∷ _) = false

-- buildListQuery
unfoldable pub build_list_query : PartFilter → Bool → SelectQuery
build_list_query part_filter for_update =
    if not (is_empty part_filter.uuids)
    then record {
      where_uuids = some part_filter.uuids;
      where_part_type = none;
      order_by = by_uuid;
      for_update = for_update;
    }
    else if not (str_eq part_filter.part_type part_type_unspecified)
    then record {
      where_uuids = none;
      where_part_type = some part_filter.part_type;
      order_by = by_name;
      for_update = for_update;
    }
    else record {
      where_uuids = none;
      where_part_type = none;
      order_by = by_name;
      for_update = for_update;
    }

-- The table `parts`. The order of its rows is of no consequence.
abbrev pub Table : Type 0
Table = List PartRecord

abbrev meets_uuids : Option (List ℕ) → ℕ → Bool
meets_uuids none u = true
meets_uuids (some us) u = contains u us

abbrev meets_part_type : Option String → String → Bool
meets_part_type none t = true
meets_part_type (some s) t = str_eq t s

-- The rows that the WHERE clauses let through.
abbrev pub select : SelectQuery → Table → List PartRecord
select q =
    filter_by
      (λ r. meets_part_type q.where_part_type r.part_type && meets_uuids q.where_uuids r.uuid)

-- The row of a key, for `WHERE uuid = $1`.
abbrev pub find_row : ℕ → Table → Option PartRecord
find_row u [] = none
find_row u (r ∷ rs) = if u == r.uuid then some r else find_row u rs

-- What the service relies on from PostgreSQL: a statement may fail, and ORDER BY only arranges
-- the rows. Failures may depend on the statement and the table.
pub record Postgres : Type 0 where
  pub select_fault : SelectQuery → Table → Option Error
  pub get_fault : ℕ → Table → Option Error
  pub update_fault : List Part → Table → Option Error
  pub arrange : OrderBy → List PartRecord → List PartRecord
  pub arrange_perm : (o : OrderBy) (rows : List PartRecord) → Permᴰ (arrange o rows) rows

-- The loop that fills `recordByUUID`; a later row with the same key replaces an earlier one.
unfoldable pub index : List PartRecord → Dict PartRecord → Dict PartRecord
index [] m = m
index (r ∷ rs) m = index rs (insert r.uuid r m)

-- The counters of one part, from the arrays of the batch: those of the first entry for the row.
unfoldable pub batch_entry : ℕ → List Part → Option Part
batch_entry u [] = none
batch_entry u (p ∷ ps) = if u == p.uuid then some p else batch_entry u ps

abbrev write_entry : PartRecord → Option Part → PartRecord
write_entry r none = r
write_entry r (some p) = record r { reserved = p.reserved; stock_quantity = p.stock_quantity }

-- `UPDATE parts SET … FROM unnest(…) WHERE p.uuid = batch.uuid`
unfoldable pub update_rows : List Part → Table → Table
unfolding batch_entry
update_rows parts = map (λ r. write_entry r (batch_entry r.uuid parts))

abbrev count_entry : Option Part → ℕ → ℕ
count_entry none n = n
count_entry (some _) n = suc n

-- RowsAffected
unfoldable pub rows_affected : List Part → Table → ℕ
unfolding batch_entry
rows_affected parts [] = 0
rows_affected parts (r ∷ t) = count_entry (batch_entry r.uuid parts) (rows_affected parts t)

module _ (unmarshal : String → Option PartPropertiesRecord) where
  -- The loop over the requested identifiers.
  unfoldable pub pick : Dict PartRecord → ℕ → Result Error Part
  unfolding part_record_to_model
  pick record_by_uuid id = elim (lookup id record_by_uuid) [
    | none ↦ err part_not_found
    | some rec ↦ part_record_to_model unmarshal rec
  ]

  -- mapAndOrder
  unfoldable pub map_and_order : List PartRecord → PartFilter → Result Error (List Part)
  unfolding index pick
  map_and_order records part_filter =
      if length part_filter.uuids == 0
      then map_result (part_record_to_model unmarshal) records
      else (let record_by_uuid = index records [] in
          if not (length record_by_uuid == length part_filter.uuids)
          then err part_not_found
          else map_result (pick record_by_uuid) part_filter.uuids)

  module _ (db : Postgres) where
    -- Get; no row is pgx.ErrNoRows.
    unfoldable pub get : ℕ → {X : Type 0} → Action Error (Table × X) Part
    unfolding part_record_to_model
    get uuid (t, x) =
        (fail_if (db.get_fault uuid t)
            >> lift (elim (find_row uuid t) [
              | none ↦ err part_not_found
              | some rec ↦ part_record_to_model unmarshal rec
            ]))
          (t, x)

    -- list
    unfoldable pub list_parts :
        PartFilter → Bool → {X : Type 0} → Action Error (Table × X) (List Part)
    list_parts part_filter for_update (t, x) =
        let q = build_list_query part_filter for_update in
        (fail_if (db.select_fault q t)
            >> lift (map_and_order (db.arrange q.order_by (select q t)) part_filter))
          (t, x)

    -- List and ListForUpdate
    unfoldable pub list : PartFilter → {X : Type 0} → Action Error (Table × X) (List Part)
    list part_filter = list_parts part_filter false

    unfoldable pub list_for_update :
        PartFilter → {X : Type 0} → Action Error (Table × X) (List Part)
    list_for_update part_filter = list_parts part_filter true

module _ (db : Postgres) where
  -- UpdateReservedBatch
  unfoldable pub update_reserved_batch :
      List Part → {X : Type 0} → Action Error (Table × X) (Unit {0})
  update_reserved_batch parts (t, x) = elim (db.update_fault parts t) [
    | some e ↦ (err e, (t, x))
    | none ↦
        if rows_affected parts t == 0
        then (err no_part_were_updated, (t, x))
        else (ok tt, (update_rows parts t, x))
  ]
