-- ===== src/Inventory/Repository/Catalogue.antt =====
-- A listing with no identifiers and no part type takes every row of the table
-- (inventory/internal/repository/part/query_parts.go).
use mathlib.Core.List.{Permᴰ}
use rocket_factory.Prelude.{
  ℕ, String, ◌≡◌, refl, sym, ◌∙◌, ap, Bool, true, Option, none, some, List, [], ◌∷◌, All, filter_by,
  contains, IsDistinct, arith, map_result, Option-cases, inl, inr,
}
use rocket_factory.Inventory.Properties.{part_type_unspecified}
use rocket_factory.Inventory.Record.{PartRecord, PartPropertiesRecord, part_record_to_model}
use rocket_factory.Inventory.Repository.{
  SelectQuery, Table, Postgres, map_and_order, list_parts, build_list_query, by_name,
}
use rocket_factory.Inventory.Repository.Selection.{row_ids, find, find-perm, perm-IsDistinct}
use rocket_factory.Inventory.Repository.Listing.{fetch, fetch-row, unless_fault}
use rocket_factory.Inventory.Repository.Batch.{IsKeyed, IsDistinct-IsKeyed}

abbrev pub catalogue_query : Bool → SelectQuery
catalogue_query for_update = record {
  where_uuids = none;
  where_part_type = none;
  order_by = by_name;
  for_update = for_update;
}

-- The table in the order in which the database returns it.
abbrev pub by_names : Postgres → Table → Table
by_names db t = db.arrange by_name t

filter_by-true : {A : Type 0} (xs : List A) → filter_by (λ x. true) xs ≡ xs
filter_by-true [] = refl
filter_by-true (x ∷ xs) = ap (◌∷◌ x) (filter_by-true xs)

find-contains :
    (u : ℕ) (t : Table) {r : PartRecord} → find u t ≡ some r → contains u (row_ids t) ≡ true
find-contains u [] h = cc
find-contains u (s ∷ t) {r} h = ground (arith, find-contains u t {r = r})

pub All-contains :
    (t rows : Table) → IsKeyed t rows → All (λ r. contains r.uuid (row_ids t) ≡ true) rows
All-contains t [] k = tt
All-contains t (r ∷ rows) k = (find-contains r.uuid t k.0, All-contains t rows k.1)

-- Rows in another order are keyed in the table as well.
perm-IsKeyed :
    (t : Table) {rows : Table}
    → Permᴰ rows t
    → IsDistinct (row_ids t)
    → (ss : Table) → IsKeyed rows ss
    → IsKeyed t ss
perm-IsKeyed t p d [] k = tt
perm-IsKeyed t p d (s ∷ ss) k = (sym (find-perm s.uuid p d) ∙ k.0, perm-IsKeyed t p d ss k.1)

module _ (unmarshal : String → Option PartPropertiesRecord) (t : Table) where
  map_result-fetch :
      (rows : Table)
      → IsKeyed t rows
      → map_result (part_record_to_model unmarshal) rows
        ≡ map_result (fetch unmarshal t) (row_ids rows)
  map_result-fetch [] k = refl
  map_result-fetch (r ∷ rows) k = rw (fetch-row unmarshal t r.uuid k.0, map_result-fetch rows k.1)

  -- On a table with unique identifiers, a listing without identifiers and of no part type, when
  -- the statement itself does not fail, has the part of every row, arranged by name, or the first
  -- error of restoring one of them. It never changes the table.
  pub list_parts-all :
      (db : Postgres) (for_update : Bool) {X : Type 0} (x : X)
      → IsDistinct (row_ids t)
      → list_parts unmarshal db
          (record { uuids = []; part_type = part_type_unspecified })
          for_update
          (t, x)
        ≡ (
          unless_fault
              (db.select_fault (catalogue_query for_update) t)
              (map_result (fetch unmarshal t) (row_ids (by_names db t))),
          (t, x),
        )
  unfolding list_parts build_list_query map_and_order
  list_parts-all db for_update x d =
      let rows = by_names db t in
      let p = db.arrange_perm by_name t in
      let keyed = perm-IsKeyed t p d rows (IsDistinct-IsKeyed rows (perm-IsDistinct p d)) in
      elim (Option-cases (db.select_fault (catalogue_query for_update) t)) [
        | inl e ↦ rw e (
            ap (λ rs. (map_result (part_record_to_model unmarshal) (db.arrange by_name rs), (t, x)))
              (filter_by-true t)
            ∙ ap (λ r. (r, (t, x))) (map_result-fetch rows keyed))
        | inr (f, e) ↦ rw e
      ]
