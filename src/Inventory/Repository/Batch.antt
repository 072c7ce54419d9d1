-- ===== src/Inventory/Repository/Batch.antt =====
-- What the batched write of changed parts does to the table
-- (inventory/internal/repository/part/update_reserved.go).
use rocket_factory.Prelude.{
  ℕ, String, ◌≡◌, refl, ◌∙◌, ap₂, subst, Option-cases, true, false, Option, some, List, [], ◌∷◌,
  map, All, contains, IsDistinct, ◌==◌, if◌then◌else◌, arith, Result, ok, map_result,
  map_result-cons, Bool-cases, inl, inr,
}
use rocket_factory.Inventory.Errors.{Error}
use rocket_factory.Inventory.Part.{Part}
use rocket_factory.Inventory.Record.{PartRecord, PartPropertiesRecord}
use rocket_factory.Inventory.Record.Restore.{IsRestored, part_record_to_model-IsRestored}
use rocket_factory.Inventory.Repository.{Table, batch_entry, write_entry, update_rows}
use rocket_factory.Inventory.Repository.Selection.{row_ids, find}
use rocket_factory.Inventory.Repository.Listing.{fetch}

-- Each row is the one that is found for its identifier.
abbrev pub IsKeyed : Table → Table → Type 0
IsKeyed t = All (λ r. find r.uuid t ≡ some r)

IsKeyed-cons :
    (r : PartRecord) (t rows : Table)
    → contains r.uuid (row_ids rows) ≡ false
    → IsKeyed t rows
    → IsKeyed (r ∷ t) rows
IsKeyed-cons r t [] h k = tt
IsKeyed-cons r t (s ∷ rows) h k =
    (ground (arith, h, k.0), IsKeyed-cons r t rows (ground (arith, h)) k.1)

pub IsDistinct-IsKeyed : (t : Table) → IsDistinct (row_ids t) → IsKeyed t t
IsDistinct-IsKeyed [] d = tt
IsDistinct-IsKeyed (r ∷ t) d = (ground arith, IsKeyed-cons r t t d.0 (IsDistinct-IsKeyed t d.1))

find-uuid : (u : ℕ) (t : Table) {r : PartRecord} → find u t ≡ some r → r.uuid ≡ u
find-uuid u [] h = cc
find-uuid u (s ∷ t) {r} h = ground (arith, find-uuid u t {r = r})

module _ (unmarshal : String → Option PartPropertiesRecord) (t : Table) where
  -- A part that was fetched was restored from the row of its identifier.
  pub fetch-eq-ok :
      (u : ℕ) {p : Part}
      → fetch unmarshal t u ≡ ok p
      → (r : PartRecord) × (find u t ≡ some r) × (IsRestored r p)
  unfolding fetch
  fetch-eq-ok u {p} h = elim (Option-cases (find u t)) [
    | inl absent ↦ absurd (ground (arith, h, absent))
    | inr (r, e) ↦ (r, e, part_record_to_model-IsRestored unmarshal r (ground (arith, h, e)))
  ]

  -- and has its identifier.
  pub fetch-uuid : (u : ℕ) {p : Part} → fetch unmarshal t u ≡ ok p → p.uuid ≡ u
  fetch-uuid u h = let (r, found, restored) = fetch-eq-ok u h in restored.uuid ∙ find-uuid u t found

-- A method of a part, and what it does to the row that the part was restored from.
pub record Changes (op : Part → Result Error Part) (row_op : PartRecord → PartRecord) : Type 0 where
  pub keeps_uuid : {p q : Part} → op p ≡ ok q → q.uuid ≡ p.uuid
  pub writes :
      {r : PartRecord} {p q : Part}
      → IsRestored r p
      → op p ≡ ok q
      → write_entry r (some q) ≡ row_op r

module _ (unmarshal : String → Option PartPropertiesRecord) (t : Table)
    {op : Part → Result Error Part} {row_op : PartRecord → PartRecord} (c : Changes op row_op) where
  -- The entry of one changed part, at any row of the table.
  written_one :
      (u : ℕ) {p q : Part} (r : PartRecord)
      → fetch unmarshal t u ≡ ok p
      → op p ≡ ok q
      → find r.uuid t ≡ some r
      → (q.uuid ≡ u) × ((r.uuid == u) ≡ true → write_entry r (some q) ≡ row_op r)
  written_one u {p} {q} r fetched changed found =
      let (r₀, found₀, restored) = fetch-eq-ok unmarshal t u fetched in
      let same_id = find-uuid u t found₀ in
      (
        cc (c.keeps_uuid changed, restored.uuid, same_id),
        λ e.
            let same : r₀ ≡ r = ground (arith, found, found₀, e) in
            c.writes (subst (λ s. IsRestored s p) same restored) changed,
      )

  -- A row is changed where its identifier is among those of the batch, and is kept otherwise.
  written :
      (us : List ℕ) {ps qs : List Part}
      → map_result (fetch unmarshal t) us ≡ ok ps
      → map_result op ps ≡ ok qs
      → (r : PartRecord) → find r.uuid t ≡ some r
      → write_entry r (batch_entry r.uuid qs) ≡ (if contains r.uuid us then row_op r else r)
  unfolding batch_entry
  written [] {ps = []} {qs = []} h k r found = refl
  written [] {ps = []} {qs = q ∷ qs} h k r found = cc
  written [] {ps = p ∷ ps} h k r found = cc
  written (u ∷ us) {ps} {qs} h k r found =
      let (p, ps', fetched, hs, eps) = map_result-cons (fetch unmarshal t) u us h in
      let k' = subst (λ l. map_result op l ≡ ok qs) eps k in
      let (q, qs', changed, ks, eqs) = map_result-cons op p ps' k' in
      let (same_id, here) = written_one u r fetched changed found in
      rw eqs (ground (arith, same_id, here, written us hs ks r found))

  -- At every row of the batch the method was called on what the row restores to, and succeeded.
  pub succeeded :
      (us : List ℕ) {ps qs : List Part}
      → map_result (fetch unmarshal t) us ≡ ok ps
      → map_result op ps ≡ ok qs
      → (r : PartRecord) → find r.uuid t ≡ some r
      → contains r.uuid us ≡ true
      → (p : Part) × (q : Part) × (IsRestored r p) × (op p ≡ ok q)
  succeeded [] h k r found inside = cc
  succeeded (u ∷ us) {ps} {qs} h k r found inside =
      let (p, ps', fetched, hs, eps) = map_result-cons (fetch unmarshal t) u us h in
      let k' = subst (λ l. map_result op l ≡ ok qs) eps k in
      let (q, qs', changed, ks, eqs) = map_result-cons op p ps' k' in
      let (r₀, found₀, restored) = fetch-eq-ok unmarshal t u fetched in
      elim (Bool-cases (r.uuid == u)) [
        | inl e ↦
            let same : r₀ ≡ r = ground (arith, found, found₀, e) in
            (p, q, subst (λ s. IsRestored s p) same restored, changed)
        | inr ne ↦ succeeded us hs ks r found (ground (arith, inside, ne))
      ]

  written_all :
      (us : List ℕ) {ps qs : List Part}
      → map_result (fetch unmarshal t) us ≡ ok ps
      → map_result op ps ≡ ok qs
      → (rows : Table) → IsKeyed t rows
      → update_rows qs rows ≡ map (λ r. if contains r.uuid us then row_op r else r) rows
  unfolding update_rows
  written_all us h k [] keyed = refl
  written_all us h k (r ∷ rows) keyed =
      ap₂ ◌∷◌ (written us h k r keyed.0) (written_all us h k rows keyed.1)

  -- The whole table after the batch: exactly the rows of the identifiers are changed.
  pub update_rows-eq :
      (us : List ℕ) {ps qs : List Part}
      → IsDistinct (row_ids t)
      → map_result (fetch unmarshal t) us ≡ ok ps
      → map_result op ps ≡ ok qs
      → update_rows qs t ≡ map (λ r. if contains r.uuid us then row_op r else r) t
  update_rows-eq us d h k = written_all us h k t (IsDistinct-IsKeyed t d)
