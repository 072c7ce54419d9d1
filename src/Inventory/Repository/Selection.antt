-- ===== src/Inventory/Repository/Selection.antt =====
-- Which row the repository finds for an identifier (inventory/internal/repository/part/query_parts.go).
use mathlib.Core.List.{Permᴰ}
use rocket_factory.Prelude.{
  ℕ, ◌≡◌, refl, ◌∙◌, false, ◌&&◌, Option, none, some, List, [], ◌∷◌, filter_by, contains,
  IsDistinct, Dict, lookup, insert, lookup-insert, if◌then◌else◌, arith, Bool-cases, inl, inr,
}
use rocket_factory.Inventory.Record.{PartRecord}
use rocket_factory.Inventory.Repository.{Table, index, find_row}

abbrev pub row_ids : List PartRecord → List ℕ
row_ids [] = []
row_ids (r ∷ rs) = r.uuid ∷ row_ids rs

-- The first row of an identifier, the only one where identifiers are a primary key.
abbrev pub find : ℕ → List PartRecord → Option PartRecord
find = find_row

abbrev pub or_else : {A : Type 0} → Option A → Option A → Option A
or_else (some a) o = some a
or_else none o = o

or_else-none : {A : Type 0} (o : Option A) → or_else o none ≡ o
or_else-none none = refl
or_else-none (some a) = refl

pub find-absent :
    (u : ℕ) (rs : List PartRecord) → contains u (row_ids rs) ≡ false → find u rs ≡ none
find-absent u [] h = refl
find-absent u (r ∷ rs) h = ground (arith, find-absent u rs)

pub lookup-index :
    (u : ℕ) (rs : List PartRecord) (m : Dict PartRecord)
    → IsDistinct (row_ids rs)
    → lookup u (index rs m) ≡ or_else (find u rs) (lookup u m)
unfolding index
lookup-index u [] m d = refl
lookup-index u (r ∷ rs) m d =
    ground (
      arith,
      lookup-index u rs (insert r.uuid r m) d.1,
      lookup-insert u r.uuid r m,
      find-absent u rs,
    )

pub contains-perm :
    (u : ℕ) {qs rs : List PartRecord}
    → Permᴰ qs rs
    → contains u (row_ids qs) ≡ contains u (row_ids rs)
contains-perm u Permᴰ.nil = refl
contains-perm u (Permᴰ.cons e p) = ground (arith, e, contains-perm u p)
contains-perm u (Permᴰ.swap e f) = ground (arith, e, f)
contains-perm u (Permᴰ.trans p q) = contains-perm u p ∙ contains-perm u q

pub perm-IsDistinct :
    {qs rs : List PartRecord} → Permᴰ qs rs → IsDistinct (row_ids rs) → IsDistinct (row_ids qs)
perm-IsDistinct Permᴰ.nil d = d
perm-IsDistinct (Permᴰ.cons {a = a} e p) d =
    (ground (arith, e, contains-perm a.uuid p, d.0), perm-IsDistinct p d.1)
perm-IsDistinct (Permᴰ.swap e f) d = ground (arith, e, f)
perm-IsDistinct (Permᴰ.trans p q) d = perm-IsDistinct p (perm-IsDistinct q d)

pub find-perm :
    (u : ℕ) {qs rs : List PartRecord}
    → Permᴰ qs rs
    → IsDistinct (row_ids rs)
    → find u qs ≡ find u rs
find-perm u Permᴰ.nil d = refl
find-perm u (Permᴰ.cons e p) d = ground (arith, e, find-perm u p d.1)
find-perm u (Permᴰ.swap e f) d = ground (arith, e, f)
find-perm u (Permᴰ.trans p q) d = find-perm u p (perm-IsDistinct q d) ∙ find-perm u q d

-- The WHERE clause on identifiers, and what an index of the rows that it lets through holds.
module _ (ids : List ℕ) where
  abbrev pub chosen : List PartRecord → List PartRecord
  chosen = filter_by (λ r. contains r.uuid ids)

  find-chosen :
      (u : ℕ) (t : Table) → find u (chosen t) ≡ (if contains u ids then find u t else none)
  find-chosen u [] = ground arith
  find-chosen u (r ∷ t) = ground (arith, find-chosen u t)

  contains-chosen :
      (u : ℕ) (t : Table) → contains u (row_ids t) ≡ false → contains u (row_ids (chosen t)) ≡ false
  contains-chosen u [] h = refl
  contains-chosen u (r ∷ t) h = ground (arith, contains-chosen u t)

  pub chosen-IsDistinct : (t : Table) → IsDistinct (row_ids t) → IsDistinct (row_ids (chosen t))
  chosen-IsDistinct [] d = tt
  chosen-IsDistinct (r ∷ t) d = elim (Bool-cases (contains r.uuid ids)) [
    | inl e ↦ rw e (contains-chosen r.uuid t d.0, chosen-IsDistinct t d.1)
    | inr e ↦ rw e (chosen-IsDistinct t d.1)
  ]

  -- The identifier is looked up among the arranged rows as in the table itself.
  pub lookup-chosen :
      (u : ℕ) {rows : List PartRecord} (t : Table)
      → Permᴰ rows (chosen t)
      → IsDistinct (row_ids t)
      → lookup u (index rows []) ≡ (if contains u ids then find u t else none)
  lookup-chosen u {rows} t p d =
      let chosen_d = chosen-IsDistinct t d in
      rw
        (
          lookup-index u rows [] (perm-IsDistinct p chosen_d),
          find-perm u p chosen_d,
          find-chosen u t,
        )
        (or_else-none _)

pub contains-chosen_iff :
    (ids : List ℕ) (u : ℕ) (t : Table)
    → contains u (row_ids (chosen ids t)) ≡ (contains u ids && contains u (row_ids t))
contains-chosen_iff ids u [] = ground arith
contains-chosen_iff ids u (r ∷ t) = ground (arith, contains-chosen_iff ids u t)
