-- ===== src/Order/Tests/Combined/Books.antt =====
-- A life of an order over the tables of both services: placed, paid, assembled.
use rocket_factory.Prelude.{
  ℕ, ◌≡◌, refl, ◌==◌, if◌then◌else◌, ok, some, [], ◌∷◌, All, TxManager, direct_tx, arith, ◌+◌,
}
use rocket_factory.Prelude.Unary.{unary}
use rocket_factory.Prelude.Int.{ℤ, pos, ◌≤ℤ◌, ◌+ℤ◌}
use rocket_factory.Inventory.Repository.{Table}
use rocket_factory.Order.Errors.{Error}
use rocket_factory.Order.Repository.{Db}
use rocket_factory.Order.Service.{Captured, pay}
use rocket_factory.Order.System.Accounts.{IsBalanced, units_of, is_open, is_assembled}
use rocket_factory.Order.System.Ledger.{Announced, Run, start, next, placing, paying, delivering}
use rocket_factory.Order.System.Ledger.Balanced.{Run-IsBalanced, Run-supply}
use rocket_factory.Order.Tests.{quiet_db, placed, pending, tables, empty, ship, event}
use rocket_factory.Order.Tests.Answers.{rules}
use rocket_factory.Order.Tests.Combined.{
  everybody, unmarshal, calm_db, parts, others, inventory_tx, tx, world, machinery, create_run,
  paid_tables, assembled_world, assembled_run, taken_parts,
}

abbrev pay_tx : TxManager Error Db (Captured × (Table × Unit {0}))
pay_tx = direct_tx

pay_run :
    pay quiet_db world unary pay_tx
      (pos 200)
      7
      "SBP"
      (tables pending, (parts (pos 10) (pos 1) (pos 1), tt))
    ≡ (ok 99, (paid_tables, (parts (pos 10) (pos 1) (pos 1), tt)))
unfolding machinery
pay_run = refl

abbrev supply : ℕ → ℤ
supply u = if u == 1 then pos 10 else pos 8

abbrev before : Table
before = parts (pos 10) (pos 0) (pos 0)

life :
    Run unary rules unmarshal calm_db inventory_tx everybody quiet_db others
      (empty, (before, tt))
      []
      assembled_world
      (7 ∷ [])
life =
    next
      (next (next start (placing [] tx (some 5) 7 (pos 100) ship placed create_run))
        (paying [] pay_tx (pos 200) 7 "SBP" 99 pay_run))
      (delivering (7 ∷ []) tx (pos 300) event 7 refl refl assembled_run)

Run-supply_example :
    All
      (λ r.
        pos (
          units_of is_open r.uuid assembled_world.0
          + units_of is_assembled r.uuid assembled_world.0)
        ≤ℤ supply r.uuid)
      taken_parts
Run-supply_example =
    Run-supply unary rules unmarshal calm_db inventory_tx everybody quiet_db others supply before tt
      assembled_world (ground arith) (ground arith) life

Run-IsBalanced_example :
    Announced assembled_world (7 ∷ []) × IsBalanced supply assembled_world.0 taken_parts
unfolding ◌+ℤ◌
Run-IsBalanced_example =
    Run-IsBalanced unary rules unmarshal calm_db inventory_tx everybody quiet_db others supply
      (empty, (before, tt)) assembled_world life tt
      (record {
        owned = tt;
        itemed = tt;
        stocked = ground arith;
        counted = ((refl, refl), ((refl, refl), tt));
      })
