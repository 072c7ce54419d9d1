-- ===== src/Inventory/Service/Rows.antt =====
-- What Reserve, Release and Commit do to a row, and the invariant of the table
-- (inventory/internal/service/application/part/{reserve,release,commit}.go).
use rocket_factory.Prelude.{
  ℕ, String, ◌≡◌, refl, sym, ap, ap₂, subst, ◌^◌, ◌<◌, Option, List, [], ◌∷◌, map, All, All-map₂,
  IsDistinct, arith, Result, ok, Bool-cases, inl, inr,
}
use rocket_factory.Prelude.Int.{
  pos, pos_part, ◌≤ℤ◌, ◌<ℤ◌, ◌+ℤ◌, ◌-ℤ◌, add64, sub64, add64-eq, sub64-eq,
}
use rocket_factory.Inventory.Errors.{Error}
use rocket_factory.Inventory.Part.{
  Part, reserve as reserve_part, release as release_part, commit as commit_part,
}
use rocket_factory.Inventory.Part.Stock.{IsStocked, reserve-eq-ok, release-eq-ok, commit-eq-ok}
use rocket_factory.Inventory.Record.{PartRecord, PartPropertiesRecord}
use rocket_factory.Inventory.Record.Restore.{IsRestored}
use rocket_factory.Inventory.Repository.{Table, Postgres}
use rocket_factory.Inventory.Repository.Selection.{row_ids}
use rocket_factory.Inventory.Repository.Batch.{Changes}
use rocket_factory.Inventory.Service.{change_body}
use rocket_factory.Inventory.Service.Changed.{touches, change_body-eq-ok}

-- What the three methods do to a row.
abbrev pub row_reserve : PartRecord → PartRecord
row_reserve r = record r { reserved = add64 r.reserved (pos 1) }

abbrev pub row_release : PartRecord → PartRecord
row_release r = record r { reserved = sub64 r.reserved (pos 1) }

abbrev pub row_commit : PartRecord → PartRecord
row_commit r = record r {
  reserved = sub64 r.reserved (pos 1);
  stock_quantity = sub64 r.stock_quantity (pos 1);
}

pub reserve-Changes : Changes reserve_part row_reserve
unfolding reserve_part
reserve-Changes = record {
  keeps_uuid = λ h. ground (arith, h);
  writes = λ s h. ground (arith, s.reserved, s.stock_quantity, h);
}

pub release-Changes : Changes release_part row_release
unfolding release_part
release-Changes = record {
  keeps_uuid = λ h. ground (arith, h);
  writes = λ s h. ground (arith, s.reserved, s.stock_quantity, h);
}

pub commit-Changes : Changes commit_part row_commit
unfolding commit_part
commit-Changes = record {
  keeps_uuid = λ h. ground (arith, h);
  writes = λ s h. ground (arith, s.reserved, s.stock_quantity, h);
}

-- The counters of a row: no more units are reserved than there are.
pub record IsStockedRow (r : PartRecord) : Type 0 where
  pub reserved_nonneg : pos 0 ≤ℤ r.reserved
  pub reserved_fits : r.reserved ≤ℤ r.stock_quantity
  pub in_column : pos_part r.stock_quantity < 2 ^ 31

-- The table: identifiers are a primary key, and every row is stocked.
pub record IsStockedTable (t : Table) : Type 0 where
  pub keys : IsDistinct (row_ids t)
  pub rows : All IsStockedRow t

pub row_ids-map :
    (f : PartRecord → PartRecord)
    → ((r : PartRecord) → (f r).uuid ≡ r.uuid)
    → (t : Table) → row_ids (map f t) ≡ row_ids t
row_ids-map f h [] = refl
row_ids-map f h (r ∷ t) = ap₂ ◌∷◌ (h r) (row_ids-map f h t)

pub All-over-map :
    (P : PartRecord → Type 0) (f : PartRecord → PartRecord) (t : Table)
    → All (λ r. P (f r)) t
    → All P (map f t)
All-over-map P f [] h = tt
All-over-map P f (r ∷ t) h = (h.0, All-over-map P f t h.1)

module _ {op : Part → Result Error Part} {row_op : PartRecord → PartRecord} (c : Changes op row_op)
    (keeps : (p q : Part) → IsStocked p → op p ≡ ok q → IsStocked q) where
  -- A row that a method has changed is stocked again.
  changed-IsStockedRow :
      {r : PartRecord} {p q : Part}
      → IsRestored r p
      → op p ≡ ok q
      → IsStockedRow r
      → IsStockedRow (row_op r)
  changed-IsStockedRow {r} {p} {q} s h stocked =
      let before : IsStocked p = ground (arith, s.reserved, s.stock_quantity) in
      let after = keeps p q before h in
      subst IsStockedRow (c.writes s h) (record {
        reserved_nonneg = after.reserved_nonneg;
        reserved_fits = after.reserved_fits;
        in_column = after.in_column;
      })

  -- So is the whole table after a closure without error.
  pub changed-IsStockedTable :
      (unmarshal : String → Option PartPropertiesRecord) (db : Postgres) {X : Type 0} (us : List ℕ)
      (t t' : Table) (x x' : X)
      → ((r : PartRecord) → (row_op r).uuid ≡ r.uuid)
      → IsStockedTable t
      → change_body unmarshal db op us (t, x) ≡ (ok tt, (t', x'))
      → IsStockedTable t'
  changed-IsStockedTable unmarshal db us t t' x x' same_id stocked h =
      let (once, moved, called, rest) =
        change_body-eq-ok unmarshal db c us t t' x x' stocked.keys h in
      subst IsStockedTable (sym moved) (record {
        keys =
            subst IsDistinct (sym (row_ids-map _ (λ r. ground (arith, same_id r)) t)) stocked.keys;
        rows = All-over-map IsStockedRow _ t (
            All-map₂
              (λ r before call. elim (Bool-cases (touches us r.uuid)) [
                | inl e ↦
                    let (p, q, restored, done) = call e in
                    rw e (changed-IsStockedRow restored done before)
                | inr e ↦ rw e before
              ])
              t stocked.rows called);
      })

-- A stocked row restores to a stocked part.
restored-IsStocked : {r : PartRecord} {p : Part} → IsRestored r p → IsStockedRow r → IsStocked p
restored-IsStocked s h = ground (arith, s.reserved, s.stock_quantity)

-- On stocked rows the counters do not wrap around, and the methods had the units that they need.
module _ (r : PartRecord) (p q : Part) (h : IsStockedRow r) (s : IsRestored r p) where
  pub reserve_exact :
      reserve_part p ≡ ok q
      → (r.reserved <ℤ r.stock_quantity)
        × (row_reserve r ≡ record r { reserved = r.reserved +ℤ pos 1 })
  reserve_exact e =
      let (free, changed) = reserve-eq-ok (restored-IsStocked s h) e in
      (
        ground (arith, free, s.reserved, s.stock_quantity),
        ap (λ v. record r { reserved = v })
            (add64-eq r.reserved (pos 1) (ground arith) (ground arith)),
      )

  pub release_exact :
      release_part p ≡ ok q
      → (pos 0 <ℤ r.reserved) × (row_release r ≡ record r { reserved = r.reserved -ℤ pos 1 })
  release_exact e =
      let (held, changed) = release-eq-ok (restored-IsStocked s h) e in
      (
        ground (arith, held, s.reserved),
        ap (λ v. record r { reserved = v })
            (sub64-eq r.reserved (pos 1) (ground arith) (ground arith)),
      )

  pub commit_exact :
      commit_part p ≡ ok q
      → (pos 0 <ℤ r.reserved)
        × (row_commit r ≡ record r {
          reserved = r.reserved -ℤ pos 1;
          stock_quantity = r.stock_quantity -ℤ pos 1;
        })
  commit_exact e =
      let (held, changed) = commit-eq-ok (restored-IsStocked s h) e in
      (
        ground (arith, held, s.reserved),
        ap₂ (λ v w. record r { reserved = v; stock_quantity = w })
            (sub64-eq r.reserved (pos 1) (ground arith) (ground arith))
            (sub64-eq r.stock_quantity (pos 1) (ground arith) (ground arith)),
      )
