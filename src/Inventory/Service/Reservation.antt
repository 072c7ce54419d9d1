-- ===== src/Inventory/Service/Reservation.antt =====
-- Reserve, Release and Commit of the part service, as transactions on the table
-- (inventory/internal/service/application/part/{reserve,release,commit}.go).
use rocket_factory.Prelude.{
  ℕ, String, ◌≡◌, refl, sym, ◌∙◌, subst, true, Option, List, map, All, All-map, All-map₂, map-cong,
  if◌then◌else◌, Result, ok, TxManager, run_cases, run-eq-ok, Bool-cases, inl, inr,
}
use rocket_factory.Prelude.Int.{pos, ◌<ℤ◌, ◌+ℤ◌, ◌-ℤ◌}
use rocket_factory.Prelude.Counting.{is_distinct}
use rocket_factory.Prelude.Action.{Action}
use rocket_factory.Inventory.Errors.{Error}
use rocket_factory.Inventory.Part.{Part}
use rocket_factory.Inventory.Part.Stock.{
  IsStocked, reserve-IsStocked, release-IsStocked, commit-IsStocked,
}
use rocket_factory.Inventory.Record.{PartRecord, PartPropertiesRecord}
use rocket_factory.Inventory.Record.Restore.{IsRestored}
use rocket_factory.Inventory.Repository.{Table, Postgres}
use rocket_factory.Inventory.Repository.Batch.{Changes}
use rocket_factory.Inventory.Service.{change_body, reserve, release, commit}
use rocket_factory.Inventory.Service.Changed.{touches, change_body-eq-ok}
use rocket_factory.Inventory.Service.Rows.{
  reserve-Changes, release-Changes, commit-Changes, reserve_exact, release_exact, commit_exact,
  IsStockedRow, IsStockedTable, changed-IsStockedTable,
}

-- Whatever a call returns, the table that it leaves is stocked if it was.
abbrev pub KeepsStock : {X : Type 0} → Action Error (Table × X) (Unit {0}) → Type 0
KeepsStock {X} m =
    (r : Result Error (Unit {0})) (t t' : Table) (x x' : X)
    → IsStockedTable t
    → m (t, x) ≡ (r, (t', x'))
    → IsStockedTable t'

-- The rows after a call without error, where `row` is what it did to each touched row and `Had`
-- what the row must have had; the request names no row twice.
abbrev pub Changed :
    List ℕ → (PartRecord → PartRecord) → (PartRecord → Type 0) → Table → Table → Type 0
Changed us row Had t t' =
    (is_distinct us ≡ true)
    × (t' ≡ map (λ r. if touches us r.uuid then row r else r) t)
    × (All (λ r. touches us r.uuid ≡ true → Had r) t)

module _ (unmarshal : String → Option PartPropertiesRecord) (db : Postgres) {X : Type 0}
    (tx : TxManager Error Table X) (us : List ℕ) where
  transaction-KeepsStock :
      {op : Part → Result Error Part} {row_op : PartRecord → PartRecord}
      → Changes op row_op
      → ((p q : Part) → IsStocked p → op p ≡ ok q → IsStocked q)
      → ((r : PartRecord) → (row_op r).uuid ≡ r.uuid)
      → KeepsStock (tx.run (change_body unmarshal db op us))
  transaction-KeepsStock {op} c keeps same_id r t t' x x' stocked h =
      elim (run_cases tx (change_body unmarshal db op us) t x r t' x' h) [
        | inl (fine, done) ↦
            changed-IsStockedTable c keeps unmarshal db us t t' x x' same_id stocked done
        | inr (bad, unchanged) ↦ subst IsStockedTable (sym unchanged) stocked
      ]

  -- After every call of Reserve, Release or Commit, whether it succeeds or fails, and also when
  -- the database fails in it, identifiers are still unique and every part of the table has
  -- 0 ≤ reserved ≤ stock, if that held before.
  pub stock_invariant :
      KeepsStock (reserve unmarshal db tx us)
      × KeepsStock (release unmarshal db tx us)
      × KeepsStock (commit unmarshal db tx us)
  unfolding reserve release commit
  stock_invariant = (
    transaction-KeepsStock reserve-Changes (λ p q. reserve-IsStocked) (λ r. refl),
    transaction-KeepsStock release-Changes (λ p q. release-IsStocked) (λ r. refl),
    transaction-KeepsStock commit-Changes (λ p q. commit-IsStocked) (λ r. refl),
  )

  transaction-Changed :
      {op : Part → Result Error Part} {row_op : PartRecord → PartRecord}
      (row : PartRecord → PartRecord) (Had : PartRecord → Type 0)
      → Changes op row_op
      → ((r : PartRecord) (p q : Part)
          → IsStockedRow r
          → IsRestored r p
          → op p ≡ ok q
          → Had r × (row_op r ≡ row r))
      → (t t' : Table) (x x' : X) → IsStockedTable t
      → tx.run (change_body unmarshal db op us) (t, x) ≡ (ok tt, (t', x'))
      → Changed us row Had t t'
  transaction-Changed {op} {row_op} row Had c exact t t' x x' stocked h =
      let done = run-eq-ok tx (change_body unmarshal db op us) t x t' x' h in
      let (once, moved, called, rest) =
        change_body-eq-ok unmarshal db c us t t' x x' stocked.keys done in
      let facts =
        All-map₂ {R = λ r. touches us r.uuid ≡ true → Had r × (row_op r ≡ row r)}
          (λ r s call inside.
            let (p, q, restored, went) = call inside in exact r p q s restored went)
          t stocked.rows called in
      (
        once,
        moved
            ∙ map-cong
                (λ r fact. elim (Bool-cases (touches us r.uuid)) [
                  | inl e ↦ rw e (fact e).1
                  | inr e ↦ rw e
                ])
                t facts,
        All-map (λ r fact inside. (fact inside).0) t facts,
      )

  -- On a stocked table, a reservation without error has found a free unit at every touched row,
  -- and its only effect on the table is one more reserved unit at each of those rows. They are the
  -- rows of the request's identifiers, none of which is repeated, and every row if the request is
  -- empty.
  pub reserve_effect :
      (t t' : Table) (x x' : X)
      → IsStockedTable t
      → reserve unmarshal db tx us (t, x) ≡ (ok tt, (t', x'))
      → Changed us
          (λ r. record r { reserved = r.reserved +ℤ pos 1 })
          (λ r. r.reserved <ℤ r.stock_quantity)
          t
          t'
  unfolding reserve
  reserve_effect = transaction-Changed _ _ reserve-Changes reserve_exact

  -- On a stocked table, a release without error has found a reserved unit at every touched row,
  -- and has put back one at each of them and changed nothing else in the table.
  pub release_effect :
      (t t' : Table) (x x' : X)
      → IsStockedTable t
      → release unmarshal db tx us (t, x) ≡ (ok tt, (t', x'))
      → Changed us
          (λ r. record r { reserved = r.reserved -ℤ pos 1 })
          (λ r. pos 0 <ℤ r.reserved)
          t
          t'
  unfolding release
  release_effect = transaction-Changed _ _ release-Changes release_exact

  -- On a stocked table, a commit without error has found a reserved unit at every touched row, and
  -- has taken one from both counters at each of them and changed nothing else in the table.
  pub commit_effect :
      (t t' : Table) (x x' : X)
      → IsStockedTable t
      → commit unmarshal db tx us (t, x) ≡ (ok tt, (t', x'))
      → Changed us
          (λ r. record r {
            reserved = r.reserved -ℤ pos 1;
            stock_quantity = r.stock_quantity -ℤ pos 1;
          })
          (λ r. pos 0 <ℤ r.reserved)
          t
          t'
  unfolding commit
  commit_effect = transaction-Changed _ _ commit-Changes commit_exact
