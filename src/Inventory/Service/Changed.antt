-- ===== src/Inventory/Service/Changed.antt =====
-- What a batch of reservations, releases or commits does to the table, for any method of a part
-- (the closures of inventory/internal/service/application/part).
use rocket_factory.Prelude.{
  ℕ, String, ◌≡◌, refl, sym, ◌∙◌, ap, subst, Bool, true, ◌||◌, All, All-map, All-map₂, map-cong,
  Option, List, [], ◌∷◌, map, contains, IsDistinct, if◌then◌else◌, arith, Result, ok, map_result,
}
use rocket_factory.Prelude.Action.{>>=-eq-ok, ◌>>=◌, lift}
use rocket_factory.Prelude.Counting.{is_distinct}
use rocket_factory.Inventory.Errors.{Error}
use rocket_factory.Inventory.Properties.{part_type_unspecified}
use rocket_factory.Inventory.Part.{Part}
use rocket_factory.Inventory.Record.{PartRecord, PartPropertiesRecord}
use rocket_factory.Inventory.Repository.{
  Table, Postgres, is_empty, by_name, list_for_update, update_reserved_batch, update_rows,
}
use rocket_factory.Inventory.Repository.Selection.{row_ids, contains-perm}
use rocket_factory.Inventory.Record.Restore.{IsRestored}
use rocket_factory.Inventory.Repository.Listing.{fetch, list_parts-eq}
use rocket_factory.Inventory.Repository.Batch.{
  Changes, update_rows-eq, succeeded, IsDistinct-IsKeyed,
}
use rocket_factory.Inventory.Repository.Catalogue.{by_names, All-contains, list_parts-all}
use rocket_factory.Inventory.Service.{change_body, filter_of}

-- Whether a request touches a row.
abbrev pub touches : List ℕ → ℕ → Bool
touches us u = is_empty us || contains u us

module _ (unmarshal : String → Option PartPropertiesRecord) (db : Postgres) where
  -- The identifiers of the parts that a request touches, in the order of the loop: those of the
  -- request, or for an empty request those of the whole table.
  abbrev touched : List ℕ → Table → List ℕ
  touched [] t = row_ids (by_names db t)
  touched (u ∷ us) t = u ∷ us

  -- A listing that went well: no identifier of the request is repeated, and each touched one was
  -- fetched.
  listed :
      {X : Type 0} (us : List ℕ) (t : Table) (x : X) {ps : List Part}
      → IsDistinct (row_ids t)
      → (list_for_update unmarshal db (filter_of us) (t, x)).0 ≡ ok ps
      → (is_distinct us ≡ true)
        × (map_result (fetch unmarshal t) (touched us t) ≡ ok ps)
        × ((list_for_update unmarshal db (filter_of us) (t, x)).1 ≡ (t, x))
  unfolding list_for_update
  listed [] t x d h =
      let same = list_parts-all unmarshal t db true x d in
      let answer = sym (ap (λ r. r.0) same) ∙ h in
      (refl, ground (arith, answer), ap (λ r. r.1) same)
  listed (u ∷ us) t x d h =
      let same = list_parts-eq unmarshal t db (u ∷ us) part_type_unspecified true x refl d in
      let answer = sym (ap (λ r. r.0) same) ∙ h in
      (ground (arith, answer), ground (arith, answer), ap (λ r. r.1) same)

  touched_rows :
      (us : List ℕ) (t : Table)
      → IsDistinct (row_ids t)
      → All (λ r. contains r.uuid (touched us t) ≡ touches us r.uuid) t
  touched_rows [] t d =
      All-map (λ r h. contains-perm r.uuid (db.arrange_perm by_name t) ∙ h) t
        (All-contains t t (IsDistinct-IsKeyed t d))
  touched_rows (u ∷ us) t d = All-map (λ r h. refl) t (IsDistinct-IsKeyed t d)

  -- The write that ends the closure.
  update_reserved_batch-eq-ok :
      {X : Type 0} (qs : List Part) (t t' : Table) (x x' : X)
      → update_reserved_batch db qs (t, x) ≡ (ok tt, (t', x'))
      → (t' ≡ update_rows qs t) × (x' ≡ x)
  unfolding update_reserved_batch
  update_reserved_batch-eq-ok qs t t' x x' h = ground arith

  module _ {op : Part → Result Error Part} {row_op : PartRecord → PartRecord}
      (c : Changes op row_op) where
    -- A closure that went well has called the method on each touched part, and has changed
    -- exactly the rows that the request touches.
    pub change_body-eq-ok :
        {X : Type 0} (us : List ℕ) (t t' : Table) (x x' : X)
        → IsDistinct (row_ids t)
        → change_body unmarshal db op us (t, x) ≡ (ok tt, (t', x'))
        → (is_distinct us ≡ true)
          × (t' ≡ map (λ r. if touches us r.uuid then row_op r else r) t)
          × (All
              (λ r.
                touches us r.uuid ≡ true
                → (p : Part) × (q : Part) × (IsRestored r p) × (op p ≡ ok q))
              t)
          × (x' ≡ x)
    unfolding change_body
    change_body-eq-ok {X} us t t' x x' d h =
        let w : Table × X = (t, x) in
        let w' : Table × X = (t', x') in
        let after = λ (qs : List Part). update_reserved_batch db qs {X = X} in
        let (ps, found, rest) =
          >>=-eq-ok (list_for_update unmarshal db (filter_of us))
            (λ parts. lift (map_result op parts) >>= after) w w' h in
        let (once, fetched, unmoved) = listed us t x d found in
        let rest' =
          subst (λ v. (lift (map_result op ps) >>= after) v ≡ (ok tt, (t', x'))) unmoved rest in
        let (qs, changed, written) = >>=-eq-ok (lift (map_result op ps)) after w w' rest' in
        let (moved, same) = update_reserved_batch-eq-ok qs t t' x x' written in
        let ids = touched us t in
        let rows = touched_rows us t d in
        (
          once,
          moved
              ∙ update_rows-eq unmarshal t c ids d fetched changed
              ∙ map-cong (λ r e. ap (λ b. if b then row_op r else r) e) t rows,
          All-map₂
              (λ r keyed e inside. succeeded unmarshal t c ids fetched changed r keyed (e ∙ inside))
              t (IsDistinct-IsKeyed t d) rows,
          same,
        )
