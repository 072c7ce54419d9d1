-- ===== src/Order/Tests/Rollbacks.antt =====
-- The theorems on failed calls of the order service at concrete tables.
use rocket_factory.Prelude.{◌≡◌, refl, some, err}
use rocket_factory.Prelude.Unary.{unary}
use rocket_factory.Prelude.Int.{pos}
use rocket_factory.Order.Errors.{invalid_order_status}
use rocket_factory.Order.Repository.{Db}
use rocket_factory.Order.Service.{cancel, pay}
use rocket_factory.Order.Service.Paying.{pay_rollback}
use rocket_factory.Order.Tests.{machinery, quiet_db, elsewhere, tx, pay_tx, tables, row}

abbrev paid_tables : Db
paid_tables = tables (row "PAID" (some 99) (some "SBP") (some (pos 200)))

cancel_again :
    cancel quiet_db elsewhere tx (pos 300) 7 (paid_tables, pos 0)
    ≡ (err invalid_order_status, (paid_tables, pos 0))
unfolding machinery
cancel_again = refl

pay_again :
    pay quiet_db elsewhere unary pay_tx (pos 300) 7 "CARD" (paid_tables, pos 0)
    ≡ (err invalid_order_status, (paid_tables, pos 0))
unfolding machinery
pay_again = refl

pay_rollback_example : paid_tables ≡ paid_tables
pay_rollback_example =
    pay_rollback quiet_db elsewhere unary pay_tx (pos 300) 7 "CARD" paid_tables (pos 0) pay_again
