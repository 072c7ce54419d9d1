-- ===== src/Inventory/Part/Stock.antt =====
-- The stock of a part under Reserve, Release and Commit (inventory/internal/model/entity/part.go).
use rocket_factory.Prelude.{◌≡◌, ◌^◌, ◌<◌, ok, err, arith, if◌then◌else◌}
use rocket_factory.Prelude.Int.{
  pos, pos_part, ◌≤ℤ◌, ◌<ℤ◌, +ℤ_cancel, ltb_ℤ, ◌+ℤ◌, ◌-ℤ◌, add64-eq, sub64-eq, +ℤ_parts, -ℤ_parts,
}
use rocket_factory.Inventory.Errors.{out_of_stock, nothing_to_release, nothing_to_commit}
use rocket_factory.Inventory.Part.{Part, reserve, release, commit}

-- No more units are reserved than there are, and the counters fit their INT columns.
pub record IsStocked (p : Part) : Type 0 where
  pub reserved_nonneg : pos 0 ≤ℤ p.reserved
  pub reserved_fits : p.reserved ≤ℤ p.stock_quantity
  pub in_column : pos_part p.stock_quantity < 2 ^ 31

module _ (p : Part) (h : IsStocked p) where
  reserve_lem : reserve p ≡ (
      if ltb_ℤ p.reserved p.stock_quantity
      then ok (record p { reserved = p.reserved +ℤ pos 1 })
      else err out_of_stock)
  unfolding reserve
  reserve_lem = ground (
    arith,
    sub64-eq p.stock_quantity p.reserved,
    add64-eq p.reserved (pos 1),
    -ℤ_parts p.stock_quantity p.reserved,
  )

  release_lem : release p ≡ (
      if ltb_ℤ (pos 0) p.reserved
      then ok (record p { reserved = p.reserved -ℤ pos 1 })
      else err nothing_to_release)
  unfolding release
  release_lem = ground (arith, sub64-eq p.reserved (pos 1))

  commit_lem : commit p ≡ (
      if ltb_ℤ (pos 0) p.reserved
      then ok
          (record p { reserved = p.reserved -ℤ pos 1; stock_quantity = p.stock_quantity -ℤ pos 1 })
      else err nothing_to_commit)
  unfolding commit
  commit_lem = ground (arith, sub64-eq p.reserved (pos 1), sub64-eq p.stock_quantity (pos 1))

-- The three methods keep the stock invariant.
pub reserve-IsStocked : {p q : Part} → IsStocked p → reserve p ≡ ok q → IsStocked q
reserve-IsStocked {p} h e = ground (arith, reserve_lem p h, +ℤ_parts p.reserved (pos 1))

pub release-IsStocked : {p q : Part} → IsStocked p → release p ≡ ok q → IsStocked q
release-IsStocked {p} h e = ground (arith, release_lem p h, -ℤ_parts p.reserved (pos 1))

pub commit-IsStocked : {p q : Part} → IsStocked p → commit p ≡ ok q → IsStocked q
commit-IsStocked {p} h e =
    ground (arith, commit_lem p h, -ℤ_parts p.reserved (pos 1), -ℤ_parts p.stock_quantity (pos 1))

-- Inversion of a successful reservation.
pub reserve-eq-ok :
    {p q : Part}
    → IsStocked p
    → reserve p ≡ ok q
    → (p.reserved <ℤ p.stock_quantity) × (q ≡ record p { reserved = p.reserved +ℤ pos 1 })
reserve-eq-ok {p} h e = ground (arith, reserve_lem p h)

pub release-eq-ok :
    {p q : Part}
    → IsStocked p
    → release p ≡ ok q
    → (pos 0 <ℤ p.reserved) × (q ≡ record p { reserved = p.reserved -ℤ pos 1 })
release-eq-ok {p} h e = ground (arith, release_lem p h)

pub commit-eq-ok :
    {p q : Part}
    → IsStocked p
    → commit p ≡ ok q
    → (pos 0 <ℤ p.reserved)
      × (q
          ≡ record p { reserved = p.reserved -ℤ pos 1; stock_quantity = p.stock_quantity -ℤ pos 1 })
commit-eq-ok {p} h e = ground (arith, commit_lem p h)

-- A unit of a stocked part that was reserved can be released, and the part is then as it was
-- before.
pub release-reserve : {p q : Part} → IsStocked p → reserve p ≡ ok q → release q ≡ ok p
release-reserve {p} {q} h e =
    let (free, changed) = reserve-eq-ok h e in
    ground (
      arith,
      changed,
      release_lem q (reserve-IsStocked h e),
      +ℤ_parts p.reserved (pos 1),
      +ℤ_cancel p.reserved (pos 1),
    )

-- A unit of a stocked part that was reserved can be committed: the stock is then one lower, the
-- reservation as before.
pub commit-reserve :
    {p q : Part}
    → IsStocked p
    → reserve p ≡ ok q
    → commit q ≡ ok (record p { stock_quantity = p.stock_quantity -ℤ pos 1 })
commit-reserve {p} {q} h e =
    let (free, changed) = reserve-eq-ok h e in
    ground (
      arith,
      changed,
      commit_lem q (reserve-IsStocked h e),
      +ℤ_parts p.reserved (pos 1),
      +ℤ_cancel p.reserved (pos 1),
    )
