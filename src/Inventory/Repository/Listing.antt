-- ===== src/Inventory/Repository/Listing.antt =====
-- What `list` returns (inventory/internal/repository/part/query_parts.go), stated with no index and
-- no row order: one part for each requested identifier, in the requested order.
use mathlib.Core.List.{Permᴰ}
use rocket_factory.Prelude.{
  ℕ, String, ◌≡◌, refl, ap, Bool, true, false, ◌&&◌, ◌||◌, Option, none, some, List, [], ◌∷◌,
  length, contains, IsDistinct, Dict, insert, keys, length-keys, contains-keys-insert,
  insert-IsDistinct, ◌==◌, if◌then◌else◌, arith, Result, err, map_result, Option-cases, inl, inr,
}
use rocket_factory.Prelude.Counting.{is_distinct, all_in, all_in_self, length-eq_test}
use rocket_factory.Inventory.Errors.{Error, part_not_found}
use rocket_factory.Inventory.Part.{Part}
use rocket_factory.Inventory.Record.{PartRecord, PartPropertiesRecord, part_record_to_model}
use rocket_factory.Inventory.Repository.{
  SelectQuery, Table, Postgres, index, pick, map_and_order, list_parts, build_list_query, is_empty,
  by_uuid,
}
use rocket_factory.Inventory.Repository.Selection.{
  row_ids, find, chosen, lookup-chosen, contains-perm, contains-chosen_iff,
}

contains-keys-index :
    (u : ℕ) (rs : List PartRecord) (m : Dict PartRecord)
    → contains u (keys (index rs m)) ≡ (contains u (row_ids rs) || contains u (keys m))
unfolding index
contains-keys-index u [] m = refl
contains-keys-index u (r ∷ rs) m =
    ground (arith, contains-keys-index u rs (insert r.uuid r m), contains-keys-insert u r.uuid r m)

index-IsDistinct :
    (rs : List PartRecord) (m : Dict PartRecord)
    → IsDistinct (keys m)
    → IsDistinct (keys (index rs m))
unfolding index
index-IsDistinct [] m d = d
index-IsDistinct (r ∷ rs) m d =
    index-IsDistinct rs (insert r.uuid r m) (insert-IsDistinct r.uuid r m d)

length-ne-zero : (ids : List ℕ) → is_empty ids ≡ false → (length ids == 0) ≡ false
length-ne-zero [] h = cc
length-ne-zero (x ∷ xs) h = ground arith

-- The query of a filter with identifiers: its part type is not looked at.
abbrev pub list_query : List ℕ → Bool → SelectQuery
list_query ids for_update = record {
  where_uuids = some ids;
  where_part_type = none;
  order_by = by_uuid;
  for_update = for_update;
}

build_list_query-ids :
    (ids : List ℕ) (part_type : String) (for_update : Bool)
    → is_empty ids ≡ false
    → build_list_query (record { uuids = ids; part_type = part_type }) for_update
      ≡ list_query ids for_update
unfolding build_list_query
build_list_query-ids [] part_type for_update h = cc
build_list_query-ids (u ∷ ids) part_type for_update h = refl

abbrev pub unless_fault : {A : Type 0} → Option Error → Result Error A → Result Error A
unless_fault none r = r
unless_fault (some e) r = err e

module _ (unmarshal : String → Option PartPropertiesRecord) (t : Table) where
  -- The part of one identifier, straight from the table.
  unfoldable pub fetch : ℕ → Result Error Part
  fetch u = elim (find u t) [
    | none ↦ err part_not_found
    | some r ↦ part_record_to_model unmarshal r
  ]

  pub fetch-row :
      (u : ℕ) {r : PartRecord} → find u t ≡ some r → fetch u ≡ part_record_to_model unmarshal r
  unfolding fetch
  fetch-row u h = ground (arith, h)

  module _ (ids : List ℕ) {rows : List PartRecord} (p : Permᴰ rows (chosen ids t))
      (d : IsDistinct (row_ids t)) where
    length-index-eq_test :
        (length (index rows []) == length ids) ≡ (is_distinct ids && all_in ids (row_ids t))
    length-index-eq_test = rw (← length-keys (index rows [])) (
        length-eq_test (keys (index rows [])) ids (row_ids t) (index-IsDistinct rows [] tt) (λ v.
          ground
            (arith, contains-keys-index v rows [], contains-perm v p, contains-chosen_iff ids v t)))

    pick-index : (u : ℕ) → contains u ids ≡ true → pick unmarshal (index rows []) u ≡ fetch u
    unfolding pick fetch
    pick-index u inside = ground (arith, lookup-chosen ids u t p d)

    map_result-pick :
        (us : List ℕ)
        → all_in us ids ≡ true
        → map_result (pick unmarshal (index rows [])) us ≡ map_result fetch us
    map_result-pick [] h = refl
    map_result-pick (u ∷ us) h =
        rw (pick-index u (ground (arith, h)), map_result-pick us (ground (arith, h)))

    -- For a filter with identifiers the answer does not depend on the order of the rows.
    map_and_order-eq :
        (part_type : String)
        → is_empty ids ≡ false
        → map_and_order unmarshal rows (record { uuids = ids; part_type = part_type }) ≡ (
            if is_distinct ids && all_in ids (row_ids t)
            then map_result fetch ids
            else err part_not_found)
    unfolding map_and_order
    map_and_order-eq part_type ne =
        ground (
          arith,
          length-ne-zero ids ne,
          length-index-eq_test,
          map_result-pick ids (all_in_self ids),
        )

  -- On a table with unique identifiers, a listing by one or more identifiers, when the statement
  -- itself does not fail, succeeds exactly when no identifier is repeated, each is the key of a
  -- row, and each such row can be restored; it then has one part for each identifier, in the
  -- requested order. It never changes the table.
  pub list_parts-eq :
      (db : Postgres) (ids : List ℕ) (part_type : String) (for_update : Bool) {X : Type 0} (x : X)
      → is_empty ids ≡ false
      → IsDistinct (row_ids t)
      → list_parts unmarshal db (record { uuids = ids; part_type = part_type }) for_update (t, x)
        ≡ (
          unless_fault (db.select_fault (list_query ids for_update) t) (
              if is_distinct ids && all_in ids (row_ids t)
              then map_result fetch ids
              else err part_not_found),
          (t, x),
        )
  unfolding list_parts
  list_parts-eq db ids part_type for_update x ne d =
      let same = map_and_order-eq ids (db.arrange_perm by_uuid (chosen ids t)) d part_type ne in
      rw (build_list_query-ids ids part_type for_update ne)
        (elim (Option-cases (db.select_fault (list_query ids for_update) t)) [
          | inl e ↦ rw e (ap (λ r. (r, (t, x))) same)
          | inr (f, e) ↦ rw e
        ])
