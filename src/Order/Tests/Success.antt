-- ===== src/Order/Tests/Success.antt =====
-- When the operations of the order service succeed, at concrete tables.
use rocket_factory.Prelude.{◌≡◌, refl, [], ◌∷◌, none, some, arith, ok}
use rocket_factory.Prelude.Unary.{unary}
use rocket_factory.Prelude.Int.{pos}
use rocket_factory.Order.Repository.{update_rows}
use rocket_factory.Order.Service.{create, cancel, pay}
use rocket_factory.Order.Service.Placeable.{IsRecordable, create_succeeds}
use rocket_factory.Order.Service.Success.{
  IsRead, cancel_succeeds, pay_succeeds, ship_assembled_succeeds,
}
use rocket_factory.Order.Model.{total_price}
use rocket_factory.Order.Record.{order_item_records_to_models, order_item_models_to_records}
use rocket_factory.Order.Consumer.{ship_assembled_handler}
use rocket_factory.Order.Tests.{
  hull, engine, items, placed, empty, ship, quiet_db, elsewhere, tx, pay_tx, pending, tables, row,
  event, paid_tables, assembled_world,
}

read : IsRead quiet_db 7 (tables pending) pending.order
read = record { there = refl; get_works = refl; items_work = refl }

cancel_succeeds_example :
    cancel quiet_db elsewhere tx (pos 200) 7 (tables pending, pos 0)
    ≡ (ok tt, (tables (row "CANCELLED" none none (some (pos 200))), pos 0))
unfolding update_rows
cancel_succeeds_example =
    cancel_succeeds quiet_db 7 (tables pending) pending.order elsewhere read (pos 0) tx (pos 200)
      refl refl refl

pay_succeeds_example :
    pay quiet_db elsewhere unary pay_tx (pos 200) 7 "SBP" (tables pending, pos 0)
    ≡ (ok 99, (paid_tables, pos 800))
unfolding update_rows total_price order_item_records_to_models
pay_succeeds_example =
    pay_succeeds quiet_db 7 (tables pending) pending.order elsewhere read (pos 0) unary pay_tx
      (pos 200) "SBP" (λ same. cc) refl refl refl refl

read_paid : IsRead quiet_db 7 paid_tables (row "PAID" (some 99) (some "SBP") (some (pos 200))).order
read_paid = record { there = refl; get_works = refl; items_work = refl }

ship_assembled_succeeds_example :
    ship_assembled_handler quiet_db elsewhere unary tx (pos 300) (some event) (paid_tables, pos 800)
    ≡ (ok tt, assembled_world)
unfolding update_rows
ship_assembled_succeeds_example =
    ship_assembled_succeeds quiet_db 7 paid_tables
      (row "PAID" (some 99) (some "SBP") (some (pos 200))).order elsewhere read_paid (pos 800) unary
      tx (pos 300) event refl (λ same. cc) refl refl

recordable : IsRecordable quiet_db placed empty items
unfolding order_item_models_to_records
recordable = record { fresh = refl; inserted = refl; order_works = refl; items_work = refl }

create_succeeds_example :
    create quiet_db elsewhere tx (some 5) 7 (pos 100) ship (empty, pos 0)
    ≡ (ok placed, (tables pending, pos 0))
create_succeeds_example =
    create_succeeds quiet_db elsewhere 7 (pos 100) ship empty (pos 0) tx 5 (hull ∷ engine ∷ [])
      items refl refl refl (ground arith) refl refl recordable
