-- ===== src/Order/Service/Success.antt =====
-- When Cancel, Pay and the handler of ShipAssembled succeed (order/internal/service/order,
-- order/internal/consumer/assembly_consumer): only a commit that fails can stand in their way.
use rocket_factory.Prelude.{
  ℕ, String, ◌≡◌, ◌≢◌, refl, ◌∙◌, false, true, Bool-cases, inl, inr, none, some, List, [], ◌∷◌,
  ◌==◌, str_eq, eq_iff, ok, arith, TxManager, unless_commit_fails, Option-cases, UuidCodec,
  nil_uuid,
}
use rocket_factory.Prelude.Int.{ℤ, pos}
use rocket_factory.Order.Errors.{Error}
use rocket_factory.Order.Model.{
  Order, ShipAssembledEvent, items_uuids, total_price, pending_payment, cancelled, assembled,
  method_unspecified, zero_order,
}
use rocket_factory.Order.Record.{OrderRecord}
use rocket_factory.Order.Repository.{
  Row, Db, Postgres, find_row, rows_affected, get_for_update, update, update_rows,
}
use rocket_factory.Order.Repository.Rows.{restored, get_with_items-eq, find_row-uuid}
use rocket_factory.Order.Service.{
  Externals, Captured, paid_order, order_paid, cancel_body, cancel, pay_body, pay,
}
use rocket_factory.Order.Service.Effects.{written}
use rocket_factory.Order.Consumer.{assembled_body, ship_assembled_handler}

rows_affected-found :
    (o : Order) (rows : List Row) {r : OrderRecord}
    → find_row o.uuid rows ≡ some r
    → (rows_affected o rows == 0) ≡ false
unfolding rows_affected
rows_affected-found o [] h = cc
rows_affected-found o (row ∷ rows) {r} h = elim (Bool-cases (o.uuid == row.order.uuid)) [
  | inl e ↦ rw e (ground arith)
  | inr e ↦ rw e (rows_affected-found o rows {r = r} (rw e at h))
]

module _ (db : Postgres) (u : ℕ) (d : Db) (r : OrderRecord) where
  -- The database reads the order.
  pub record IsRead : Type 0 where
    pub there : find_row u d.orders ≡ some r
    pub get_works : db.get_fault u true d ≡ none
    pub items_work : db.items_fault u d ≡ none

  get_for_update-read :
      IsRead → {X : Type 0} (x : X) → get_for_update db u (d, x) ≡ (ok (restored db u d r), (d, x))
  unfolding get_for_update
  get_for_update-read read x =
      get_with_items-eq db u d true x ∙ rw (read.get_works, read.there, read.items_work) refl

  update-read :
      IsRead
      → (now : ℤ) (o : Order) → o.uuid ≡ r.uuid
      → db.update_fault o d ≡ none
      → {X : Type 0} (x : X) → update db now o (d, x) ≡ (ok tt, (written (db.timestamp now) o d, x))
  unfolding update
  update-read read now o same_id works x =
      let key : o.uuid ≡ u = same_id ∙ find_row-uuid u d.orders {r = r} read.there in
      rw (works, rows_affected-found o d.orders {r = r} (rw key read.there)) refl

  module _ {X : Type 0} (ext : Externals X) (read : IsRead) (x : X) where
    cancel_body-read :
        (now : ℤ) {x' : X}
        → r.status ≡ pending_payment
        → ext.inventory.release_parts (items_uuids (restored db u d r)) x ≡ (ok tt, x')
        → db.update_fault (record (restored db u d r) { status = cancelled }) d ≡ none
        → cancel_body db ext now u (d, x) ≡ (
          ok tt,
          (written (db.timestamp now) (record (restored db u d r) { status = cancelled }) d, x'),
        )
    unfolding cancel_body items_uuids update update_rows
    cancel_body-read now {x'} pending released works =
        rw
          (
            get_for_update-read read x,
            pending,
            released,
            update-read read now (record (restored db u d r) { status = cancelled }) refl works x',
          )
          refl

    assembled_body-read :
        (now : ℤ) {x' : X}
        → r.status ≢ assembled
        → ext.inventory.commit_parts (items_uuids (restored db u d r)) x ≡ (ok tt, x')
        → db.update_fault (record (restored db u d r) { status = assembled }) d ≡ none
        → assembled_body db ext now u (d, x) ≡ (
          ok tt,
          (written (db.timestamp now) (record (restored db u d r) { status = assembled }) d, x'),
        )
    unfolding assembled_body items_uuids update update_rows
    assembled_body-read now {x'} unfinished committed works =
        let other : str_eq r.status assembled ≡ false =
          ground (arith, unfinished, eq_iff r.status assembled) in
        rw
          (
            get_for_update-read read x,
            other,
            committed,
            update-read read now (record (restored db u d r) { status = assembled }) refl works x',
          )
          refl

    -- A pending order whose database answers and whose parts the inventory releases is cancelled where
    -- the commit works; where it fails, its error is the answer, and the tables are as they were, but
    -- the parts are released.
    pub cancel_succeeds :
        (tx : TxManager Error Db X) (now : ℤ) {x' : X}
        → r.status ≡ pending_payment
        → ext.inventory.release_parts (items_uuids (restored db u d r)) x ≡ (ok tt, x')
        → db.update_fault (record (restored db u d r) { status = cancelled }) d ≡ none
        → cancel db ext tx now u (d, x)
          ≡ unless_commit_fails
              (tx.commit_fault d
                (written (db.timestamp now) (record (restored db u d r) { status = cancelled }) d)
                x')
              tt
              (written (db.timestamp now) (record (restored db u d r) { status = cancelled }) d, x')
              (d, x')
    unfolding cancel
    cancel_succeeds tx now pending released works =
        tx.commits (cancel_body db ext now u) d _ x _ (cancel_body-read now pending released works)

    module _ (codec : UuidCodec) where
      pay_body-read :
          (now : ℤ) (method : String) (c : Captured) {t : ℕ} {x₁ x₂ : X}
          → r.status ≡ pending_payment
          → ext.pay_order u method x ≡ (ok t, x₁)
          → db.update_fault (paid_order (restored db u d r) t method) d ≡ none
          → ext.produce_order_paid (order_paid codec (restored db u d r)) x₁ ≡ (ok tt, x₂)
          → pay_body db ext codec now u method (d, (c, x)) ≡ (
            ok tt,
            (
              written (db.timestamp now) (paid_order (restored db u d r) t method) d,
              ((t, paid_order (restored db u d r) t method), x₂),
            ),
          )
      unfolding pay_body update update_rows
      pay_body-read now method c {t} {x₁} {x₂} pending answered works sent =
          rw
            (
              get_for_update-read read {X = Captured × X} (c, x),
              pending,
              answered,
              update-read read now (paid_order (restored db u d r) t method) refl works
                  {X = Captured × X} ((t, paid_order (restored db u d r) t method), x₁),
              sent,
            )
            refl

      -- A pending order with a method of payment, whose database answers, whose payment is taken and
      -- whose event is sent, is paid with the transaction of the payment service, and counted, where the
      -- commit works; where it fails, its error is the answer, and the tables and the counters are as
      -- they were, but the payment is taken and the event is sent.
      pub pay_succeeds :
          (tx : TxManager Error Db (Captured × X)) (now : ℤ) (method : String) {t : ℕ} {x₁ x₂ : X}
          → method ≢ method_unspecified
          → r.status ≡ pending_payment
          → ext.pay_order u method x ≡ (ok t, x₁)
          → db.update_fault (paid_order (restored db u d r) t method) d ≡ none
          → ext.produce_order_paid (order_paid codec (restored db u d r)) x₁ ≡ (ok tt, x₂)
          → pay db ext codec tx now u method (d, x)
            ≡ unless_commit_fails
                (tx.commit_fault d
                  (written (db.timestamp now) (paid_order (restored db u d r) t method) d)
                  ((t, paid_order (restored db u d r) t method), x₂))
                t
                (
                  written (db.timestamp now) (paid_order (restored db u d r) t method) d,
                  ext.orders_revenue_total
                      (total_price (restored db u d r))
                      (ext.orders_paid_total (pos 1) x₂),
                )
                (d, x₂)
      unfolding pay total_price
      pay_succeeds tx now method {t} {x₁} {x₂} given pending answered works sent =
          let a_method : str_eq method method_unspecified ≡ false =
            ground (arith, given, eq_iff method method_unspecified) in
          let body = pay_body-read now method (nil_uuid, zero_order) pending answered works sent in
          let o = paid_order (restored db u d r) t method in
          let done =
            tx.commits (pay_body db ext codec now u method) d _ ((nil_uuid, zero_order), x) _
              body in
          elim (Option-cases (tx.commit_fault d (written (db.timestamp now) o d) ((t, o), x₂))) [
            | inl works ↦ let kept = rw works at done in rw (works, a_method, kept) refl
            | inr (e, fails) ↦ let lost = rw fails at done in rw (fails, a_method, lost) refl
          ]

      -- An event for an order that is not assembled yet, whose database answers and whose parts the
      -- inventory commits, assembles it where the commit of its transaction works; where that fails,
      -- its error is the answer, and the tables are as they were, but the parts are taken.
      pub ship_assembled_succeeds :
          (tx : TxManager Error Db X) (now : ℤ) (event : ShipAssembledEvent) {x' : X}
          → codec.parse event.order_uuid ≡ some u
          → r.status ≢ assembled
          → ext.inventory.commit_parts (items_uuids (restored db u d r)) x ≡ (ok tt, x')
          → db.update_fault (record (restored db u d r) { status = assembled }) d ≡ none
          → ship_assembled_handler db ext codec tx now (some event) (d, x)
            ≡ unless_commit_fails
                (tx.commit_fault d
                  (written (db.timestamp now) (record (restored db u d r) { status = assembled }) d)
                  x')
                tt
                (
                  written (db.timestamp now) (record (restored db u d r) { status = assembled }) d,
                  x',
                )
                (d, x')
      unfolding ship_assembled_handler
      ship_assembled_succeeds tx now event named unfinished committed works = rw named (
          tx.commits (assembled_body db ext now u) d _ x _
            (assembled_body-read now unfinished committed works))
