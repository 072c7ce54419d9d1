-- ===== src/Order/Service/Paying.antt =====
-- What Pay did when it ends without an error (order/internal/service/order/pay.go).
use rocket_factory.Prelude.{
  ℕ, String, ◌≡◌, ◌≢◌, refl, sym, ◌∙◌, ap, Bool-cases, inl, inr, some, str_eq, eq_iff, Result, ok,
  err, panic, arith, TxManager, UuidCodec, run-eq-ok, run_cases, nil_uuid,
}
use rocket_factory.Prelude.Int.{ℤ, pos}
use rocket_factory.Prelude.Action
use rocket_factory.Prelude.Action.{lift, outside}
use rocket_factory.Order.Errors.{Error}
use rocket_factory.Order.Model.{pending_payment, method_unspecified, total_price, zero_order}
use rocket_factory.Order.Record.{OrderRecord}
use rocket_factory.Order.Repository.{Db, Postgres, find_row, update}
use rocket_factory.Order.Repository.Rows.{restored, after_read, update-eq-ok}
use rocket_factory.Order.Service.{
  Externals, Captured, is_pending, paid_order, order_paid, pay_body, pay, finish_pay,
}
use rocket_factory.Order.Service.Effects.{is_pending-eq-ok, written}

module _ (db : Postgres) {X : Type 0} (ext : Externals X) where
  module _ (codec : UuidCodec) where
    -- What a payment is: the method was given, the order was pending, the payment service answered with
    -- the transaction, the event was sent, the row is paid, and the revenue was counted.
    abbrev pub Pays : ℤ → ℕ → String → Db → X → ℕ → Db × X → Type 0
    Pays now u method d x t w' =
        (method ≢ method_unspecified)
        × (r : OrderRecord) × (find_row u d.orders ≡ some r)
        × (r.status ≡ pending_payment)
        × ((ext.pay_order u method x).0 ≡ ok t)
        × ((ext.produce_order_paid (order_paid codec (restored db u d r))
              (ext.pay_order u method x).1).0
            ≡ ok tt)
        × (w' ≡ (
          written (db.timestamp now) (paid_order (restored db u d r) t method) d,
          ext.orders_revenue_total (total_price (restored db u d r)) (
              ext.orders_paid_total (pos 1)
                (ext.produce_order_paid (order_paid codec (restored db u d r))
                  (ext.pay_order u method x).1).1),
        ))

    pub pay_body-eq-ok :
        (now : ℤ) (u : ℕ) (method : String) (d : Db) (c : Captured) (x : X)
        (w' : Db × (Captured × X))
        → pay_body db ext codec now u method (d, (c, x)) ≡ (ok tt, w')
        → (r : OrderRecord) × (t : ℕ) × (find_row u d.orders ≡ some r)
          × (r.status ≡ pending_payment)
          × ((ext.pay_order u method x).0 ≡ ok t)
          × ((ext.produce_order_paid
                (order_paid codec (restored db u d r))
                (ext.pay_order u method x).1).0
              ≡ ok tt)
          × (w' ≡ (
            written (db.timestamp now) (paid_order (restored db u d r) t method) d,
            (
              (t, paid_order (restored db u d r) t method),
              (ext.produce_order_paid
                  (order_paid codec (restored db u d r))
                  (ext.pay_order u method x).1).1,
            ),
          ))
    unfolding pay_body
    pay_body-eq-ok now u method d c x w' h =
        let (r, there, h1) = after_read db u _ d (c, x) w' h in
        let o = restored db u d r in
        let (_, pending, h2) = Action.>>=-eq-ok (lift (is_pending o)) _ (d, (c, x)) w' h1 in
        let (t, paying, h3) =
          Action.>>=-eq-ok (outside (outside (ext.pay_order u method))) _ (d, (c, x)) w' h2 in
        let c' : Captured = (t, paid_order o t method) in
        let x1 = (ext.pay_order u method x).1 in
        let send = outside (outside (ext.produce_order_paid (order_paid codec o))) in
        let write = update db now (paid_order o t method) in
        let (_, wrote, h4) = Action.>>=-eq-ok write (λ _. send) (d, (c', x1)) w' h3 in
        let world =
          update-eq-ok db now (paid_order o t method) d (c', x1)
            (ap (λ q. (q, (write (d, (c', x1))).1)) wrote) in
        let h5 = rw world at h4 in
        (r, t, there, is_pending-eq-ok o pending, paying, ap (λ v. v.0) h5, sym (ap (λ v. v.1) h5))

    finish_pay-eq-ok :
        (q : Result Error (Unit {0}) × (Db × (Captured × X))) {t : ℕ} {w' : Db × X}
        → finish_pay db ext codec q ≡ (ok t, w')
        → (q.0 ≡ ok tt)
          × (q.1.1.0.0 ≡ t)
          × (w' ≡ (
            q.1.0,
            ext.orders_revenue_total
                (total_price q.1.1.0.1)
                (ext.orders_paid_total (pos 1) q.1.1.1),
          ))
    finish_pay-eq-ok (ok u, (d, ((t', o), x))) h = (refl, cc, sym (ap (λ v. v.1) h))
    finish_pay-eq-ok (err e, (d, ((t', o), x))) h = cc
    finish_pay-eq-ok (panic, (d, ((t', o), x))) h = cc

    -- Pay without error: the method was given, the order was pending, the payment service answered
    -- with the transaction that Pay returns, the OrderPaid event was sent, the row of the order's
    -- key and no other is paid, with that transaction and method, and the order's total was added
    -- to the revenue.
    pub pay_effect :
        (tx : TxManager Error Db (Captured × X)) (now : ℤ) (u : ℕ) (method : String) (d : Db)
        (x : X) {t : ℕ} {w' : Db × X}
        → pay db ext codec tx now u method (d, x) ≡ (ok t, w')
        → Pays now u method d x t w'
    unfolding pay total_price
    pay_effect tx now u method d x {t} {w'} h =
        elim (Bool-cases (str_eq method method_unspecified)) [
          | inl e ↦ let h' = rw e at h in cc
          | inr e ↦
              let start : Captured = (nil_uuid, zero_order) in
              let q = tx.run (pay_body db ext codec now u method) (d, (start, x)) in
              let (fine, same, counted) = finish_pay-eq-ok q (rw e at h) in
              let (r, t', there, pending, paying, sent, world) =
                pay_body-eq-ok now u method d start x q.1 (
                  run-eq-ok tx (pay_body db ext codec now u method) d (start, x) q.1.0 q.1.1
                    (ap (λ v. (v, q.1)) fine)) in
              let revenue : OrderRecord → X = λ r.
                ext.orders_revenue_total (total_price (restored db u d r)) (
                  ext.orders_paid_total (pos 1)
                    (ext.produce_order_paid (order_paid codec (restored db u d r))
                      (ext.pay_order u method x).1).1) in
              let tx_same : t' ≡ t = sym (ap (λ v. v.1.0.0) world) ∙ same in
              (
                λ bad. ground (arith, e, bad, eq_iff method method_unspecified),
                r,
                there,
                pending,
                rw tx_same at paying,
                sent,
                counted
                    ∙ ap
                        (λ v. (
                          v.0,
                          ext.orders_revenue_total (total_price v.1.0.1)
                              (ext.orders_paid_total (pos 1) v.1.1),
                        ))
                        world
                    ∙ ap
                        (λ s. (
                          written (db.timestamp now) (paid_order (restored db u d r) s method) d,
                          revenue r,
                        ))
                        tx_same,
              )
        ]

    failed_pay :
        (q : Result Error (Unit {0}) × (Db × (Captured × X))) {e : Error} {w' : Db × X}
        → finish_pay db ext codec q ≡ (err e, w')
        → (q.0 ≢ ok tt) × (q.1.0 ≡ w'.0)
    failed_pay (ok u, (d, ((t', o), x))) h = cc
    failed_pay (err e, (d, (c, x))) h = (λ fine. cc, ap (λ v. v.1.0) h)
    failed_pay (panic, (d, (c, x))) h = cc

    -- Pay with an error leaves the tables as they were, wherever it failed, at the commit of its
    -- transaction too.
    pub pay_rollback :
        (tx : TxManager Error Db (Captured × X)) (now : ℤ) (u : ℕ) (method : String) (d : Db)
        (x : X) {e : Error} {w' : Db × X}
        → pay db ext codec tx now u method (d, x) ≡ (err e, w')
        → w'.0 ≡ d
    unfolding pay
    pay_rollback tx now u method d x {e} {w'} h =
        elim (Bool-cases (str_eq method method_unspecified)) [
          | inl blank ↦ let h' = rw blank at h in ap (λ v. v.1.0) (sym h')
          | inr given ↦
              let start : Captured = (nil_uuid, zero_order) in
              let body = pay_body db ext codec now u method in
              let q = tx.run body (d, (start, x)) in
              let (bad, same) = failed_pay q (rw given at h) in
              elim (run_cases tx body d (start, x) q.0 q.1.0 q.1.1 refl) [
                | inl (fine, done) ↦ absurd (bad fine)
                | inr (failed, kept) ↦ sym same ∙ kept
              ]
        ]
