-- ===== src/Order/Service/Lifecycle.antt =====
-- The states of an order over every interleaving of the operations
-- (order/internal/service/order, order/internal/consumer/assembly_consumer).
use rocket_factory.Prelude.{
  ℕ, String, ◌≡◌, ◌≢◌, refl, sym, ◌∙◌, ap, subst, inl, inr, Option, none, some, List, All, All-map,
  IsDistinct, contains, Result, ok, err, panic, arith, TxManager, UuidCodec, run_keeps, str_eq,
  eq_iff, Bool-cases, nil_uuid,
}
use rocket_factory.Prelude.Int.{ℤ}
use rocket_factory.Order.Errors.{Error}
use rocket_factory.Order.Model.{
  Order, ShipAssembledEvent, pending_payment, paid, cancelled, assembled, method_unspecified,
  zero_order,
}
use rocket_factory.Order.Record.{OrderRecord, OrderItemRecord}
use rocket_factory.Order.Repository.{Row, Db, Postgres, find_row, set_row, update_rows}
use rocket_factory.Order.Repository.Rows.{
  order_ids, order_ids-update_rows, All-update_rows, has_row-contains, find_row-uuid, restored,
}
use rocket_factory.Order.Repository.Creation.{HasOrder}
use rocket_factory.Order.Service.{
  Externals, Captured, paid_order, cancel, pay, cancel_body, pay_body, finish_pay,
}
use rocket_factory.Order.Service.Effects.{written, cancel_body-eq-ok, assembled_body-eq-ok}
use rocket_factory.Order.Service.Paying.{pay_body-eq-ok}
use rocket_factory.Order.Consumer.{ship_assembled_handler, assembled_body, handle_parsed}

-- The states of an order, with what its row records in each of them.
pub data Stage (r : OrderRecord) : Type 0 where
  in_pending :
      r.status ≡ pending_payment → r.transaction_uuid ≡ none → r.payment_method ≡ none → Stage r
  in_cancelled :
      r.status ≡ cancelled → r.transaction_uuid ≡ none → r.payment_method ≡ none → Stage r
  in_paid :
      r.status ≡ paid
      → (t : ℕ) → (method : String) → r.transaction_uuid ≡ some t
      → r.payment_method ≡ some method
      → method ≢ method_unspecified
      → Stage r
  in_assembled : r.status ≡ assembled → Stage r

abbrev pub HasStage : Row → Type 0
HasStage row = Stage row.order

-- The tables fit together: one row for each order, items only of orders that exist, and each order
-- in a state with the columns of that state.
pub record IsConsistent (d : Db) : Type 0 where
  pub distinct : IsDistinct (order_ids d.orders)
  pub owned : All (HasOrder d.orders) d.items
  pub staged : All HasStage d.orders

pub HasOrder-update_rows :
    (now : ℤ) (o : Order) (rows : List Row) (i : OrderItemRecord)
    → HasOrder rows i
    → HasOrder (update_rows now o rows) i
HasOrder-update_rows now o rows i h =
    has_row-contains i.order_uuid (update_rows now o rows)
    ∙ ap (contains i.order_uuid) (order_ids-update_rows now o rows)
    ∙ sym (has_row-contains i.order_uuid rows)
    ∙ h

-- Writing the row of an order in a way that leaves it in some state keeps the tables consistent.
written-IsConsistent :
    (now : ℤ) (o : Order) (d : Db) {r : OrderRecord}
    → find_row o.uuid d.orders ≡ some r
    → ((row : Row) → row.order ≡ r → HasStage row → HasStage (set_row now o row))
    → IsConsistent d
    → IsConsistent (written now o d)
written-IsConsistent now o d there keep c = record {
  distinct = subst IsDistinct (sym (order_ids-update_rows now o d.orders)) c.distinct;
  owned = All-map (HasOrder-update_rows now o d.orders) d.items c.owned;
  staged = All-update_rows HasStage now o d.orders c.distinct there keep c.staged;
}

-- A pending order has no transaction and no method yet.
pending_row :
    (r : OrderRecord)
    → r.status ≡ pending_payment
    → Stage r
    → (r.transaction_uuid ≡ none) × (r.payment_method ≡ none)
pending_row r p (in_pending s t m) = (t, m)
pending_row r p (in_cancelled s t m) = cc
pending_row r p (in_paid s t m a b c) = cc
pending_row r p (in_assembled s) = cc

module _ (db : Postgres) {X : Type 0} (ext : Externals X) where
  -- The row of the order that was read is found under the key of that order.
  found_again :
      (u : ℕ) (d : Db) {r : OrderRecord}
      → find_row u d.orders ≡ some r
      → find_row r.uuid d.orders ≡ some r
  found_again u d {r = r} there =
      subst (λ v. find_row v d.orders ≡ some r) (sym (find_row-uuid u d.orders {r = r} there)) there

  pub cancel-IsConsistent :
      (tx : TxManager Error Db X) (now : ℤ) (u : ℕ) (d : Db) (x : X)
      → IsConsistent d
      → IsConsistent (cancel db ext tx now u (d, x)).1.0
  unfolding cancel
  cancel-IsConsistent tx now u d x c =
      run_keeps IsConsistent tx (cancel_body db ext now u) d x
        (λ d' x' done.
          let (r, there, pending, _, world) = cancel_body-eq-ok db ext now u d x (d', x') done in
          let o : Order = record (restored db u d r) { status = cancelled } in
          subst IsConsistent (sym (ap (λ v. v.0) world)) (
            written-IsConsistent (db.timestamp now) o d (found_again u d there)
              (λ row same stage.
                let (no_tx, no_method) = pending_row r pending (subst Stage same stage) in
                in_cancelled refl no_tx no_method)
              c))
        c

  assembled-IsConsistent :
      (tx : TxManager Error Db X) (now : ℤ) (u : ℕ) (d : Db) (x : X)
      → IsConsistent d
      → IsConsistent (tx.run (assembled_body db ext now u) (d, x)).1.0
  assembled-IsConsistent tx now u d x c =
      run_keeps IsConsistent tx (assembled_body db ext now u) d x
        (λ d' x' done.
          let (r, there, happened) = assembled_body-eq-ok db ext now u d x (d', x') done in
          elim happened [
            | inl (already, world) ↦ subst IsConsistent (sym (ap (λ v. v.0) world)) c
            | inr (_, _, world) ↦
                let o : Order = record (restored db u d r) { status = assembled } in
                subst IsConsistent (sym (ap (λ v. v.0) world)) (
                  written-IsConsistent (db.timestamp now) o d (found_again u d there)
                    (λ row same stage. in_assembled refl) c)
          ])
        c

  pub handler-IsConsistent :
      (codec : UuidCodec) (tx : TxManager Error Db X) (now : ℤ) (event : Option ShipAssembledEvent)
      (d : Db) (x : X)
      → IsConsistent d
      → IsConsistent (ship_assembled_handler db ext codec tx now event (d, x)).1.0
  unfolding ship_assembled_handler
  handler-IsConsistent codec tx now none d x c = c
  handler-IsConsistent codec tx now (some event) d x c = by_parse (codec.parse event.order_uuid)
    where
      by_parse : (named : Option ℕ) → IsConsistent (handle_parsed db ext tx now named (d, x)).1.0
      by_parse none = c
      by_parse (some u) = assembled-IsConsistent tx now u d x c

  finish_pay-world :
      (codec : UuidCodec) (q : Result Error (Unit {0}) × (Db × (Captured × X)))
      → q.1.0 ≡ (finish_pay db ext codec q).1.0
  finish_pay-world codec (ok u, (d, (c, x))) = refl
  finish_pay-world codec (err e, (d, (c, x))) = refl
  finish_pay-world codec (panic, (d, (c, x))) = refl

  pub pay-IsConsistent :
      (codec : UuidCodec) (tx : TxManager Error Db (Captured × X)) (now : ℤ) (u : ℕ)
      (method : String) (d : Db) (x : X)
      → IsConsistent d
      → IsConsistent (pay db ext codec tx now u method (d, x)).1.0
  unfolding pay
  pay-IsConsistent codec tx now u method d x c =
      elim (Bool-cases (str_eq method method_unspecified)) [
        | inl e ↦ rw e c
        | inr e ↦ rw e (
            subst IsConsistent (finish_pay-world codec _) (
              run_keeps IsConsistent tx (pay_body db ext codec now u method) d
                ((nil_uuid, zero_order), x)
                (λ d' x' done.
                  let (r, t, there, pending, _, _, world) =
                    pay_body-eq-ok db ext codec now u method d (nil_uuid, zero_order) x (d', x')
                      done in
                  subst IsConsistent (sym (ap (λ v. v.0) world)) (
                    written-IsConsistent (db.timestamp now)
                      (paid_order (restored db u d r) t method) d (found_again u d there)
                      (λ row same stage.
                        in_paid refl t method refl refl
                          (λ bad. ground (arith, e, bad, eq_iff method method_unspecified)))
                      c))
                c))
      ]
