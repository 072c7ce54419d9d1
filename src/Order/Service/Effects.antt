-- ===== src/Order/Service/Effects.antt =====
-- What Cancel, Pay and the handler of ShipAssembled did when they end without an error
-- (order/internal/service/order, order/internal/consumer/assembly_consumer).
use rocket_factory.Prelude.{
  ℕ, ◌≡◌, ◌≢◌, sym, ap, Bool-cases, inl, inr, ◌⊎◌, none, some, Option-cases, str_eq, eq_iff, ok,
  arith, TxManager, UuidCodec, run-eq-ok, err, run_cases,
}
use rocket_factory.Prelude.Int.{ℤ}
use rocket_factory.Prelude.Action
use rocket_factory.Prelude.Action.{lift, outside}
use rocket_factory.Order.Errors.{Error}
use rocket_factory.Order.Model.{
  Order, ShipAssembledEvent, items_uuids, pending_payment, cancelled, assembled,
}
use rocket_factory.Order.Record.{OrderRecord}
use rocket_factory.Order.Repository.{Db, Postgres, find_row, update_rows, update}
use rocket_factory.Order.Repository.Rows.{restored, after_read, update-eq-ok}
use rocket_factory.Order.Service.{Externals, is_pending, cancel_body, cancel}
use rocket_factory.Order.Consumer.{assembled_body, ship_assembled_handler}

pub is_pending-eq-ok : (o : Order) → is_pending o ≡ ok tt → o.status ≡ pending_payment
is_pending-eq-ok o h = ground (arith, h, eq_iff o.status pending_payment)

-- The tables after an order was written.
abbrev pub written : ℤ → Order → Db → Db
written now o d = record d { orders = update_rows now o d.orders }

module _ (db : Postgres) {X : Type 0} (ext : Externals X) where
  -- What a cancellation is: the order was pending, the inventory released its parts, and its row is
  -- cancelled.
  abbrev pub Cancels : ℤ → ℕ → Db → X → Db × X → Type 0
  Cancels now u d x w' =
      (r : OrderRecord) × (find_row u d.orders ≡ some r)
      × (r.status ≡ pending_payment)
      × ((ext.inventory.release_parts (items_uuids (restored db u d r)) x).0 ≡ ok tt)
      × (w' ≡ (
        written (db.timestamp now) (record (restored db u d r) { status = cancelled }) d,
        (ext.inventory.release_parts (items_uuids (restored db u d r)) x).1,
      ))

  -- What an assembly is: the order was assembled already and nothing happened, or the inventory took
  -- its parts and its row is assembled now.
  abbrev pub Assembles : ℤ → ℕ → Db → X → Db × X → Type 0
  Assembles now u d x w' =
      (r : OrderRecord) × (find_row u d.orders ≡ some r)
      × (((r.status ≡ assembled) × (w' ≡ (d, x)))
          ⊎ ((r.status ≢ assembled)
              × ((ext.inventory.commit_parts (items_uuids (restored db u d r)) x).0 ≡ ok tt)
              × (w' ≡ (
                written (db.timestamp now) (record (restored db u d r) { status = assembled }) d,
                (ext.inventory.commit_parts (items_uuids (restored db u d r)) x).1,
              ))))

  pub cancel_body-eq-ok :
      (now : ℤ) (u : ℕ) (d : Db) (x : X) (w' : Db × X)
      → cancel_body db ext now u (d, x) ≡ (ok tt, w')
      → Cancels now u d x w'
  unfolding cancel_body
  cancel_body-eq-ok now u d x w' h =
      let (r, there, h1) = after_read db u _ d x w' h in
      let o = restored db u d r in
      let write = update db now (record o { status = cancelled }) in
      let call = outside (ext.inventory.release_parts (items_uuids o)) in
      let (_, pending, h2) =
        Action.>>=-eq-ok (lift (is_pending o)) (λ _. Action.◌>>◌ call write) (d, x) w' h1 in
      let (_, released, h3) = Action.>>=-eq-ok call (λ _. write) (d, x) w' h2 in
      (r, there, is_pending-eq-ok o pending, released, update-eq-ok db now _ d _ h3)

  pub assembled_body-eq-ok :
      (now : ℤ) (u : ℕ) (d : Db) (x : X) (w' : Db × X)
      → assembled_body db ext now u (d, x) ≡ (ok tt, w')
      → Assembles now u d x w'
  unfolding assembled_body
  assembled_body-eq-ok now u d x w' h =
      let (r, there, h1) = after_read db u _ d x w' h in
      let o = restored db u d r in
      elim (Bool-cases (str_eq r.status assembled)) [
        | inl e ↦
            let h2 = rw e at h1 in
            (r, there, inl (ground (arith, e, eq_iff r.status assembled), sym (ap (λ v. v.1) h2)))
        | inr e ↦
            let h2 = rw e at h1 in
            let write = update db now (record o { status = assembled }) in
            let call = outside (ext.inventory.commit_parts (items_uuids o)) in
            let (_, committed, h3) = Action.>>=-eq-ok call (λ _. write) (d, x) w' h2 in
            (
              r,
              there,
              inr (
                ground (arith, e, eq_iff r.status assembled),
                committed,
                update-eq-ok db now _ d _ h3,
              ),
            )
      ]

  -- Cancel without error: the order was pending, the inventory released its parts, and the row of
  -- its key and no other is cancelled.
  pub cancel_effect :
      (tx : TxManager Error Db X) (now : ℤ) (u : ℕ) (d : Db) (x : X) (w' : Db × X)
      → cancel db ext tx now u (d, x) ≡ (ok tt, w')
      → Cancels now u d x w'
  unfolding cancel
  cancel_effect tx now u d x w' h =
      cancel_body-eq-ok now u d x w' (run-eq-ok tx (cancel_body db ext now u) d x (w'.0) (w'.1) h)

  -- A run of the handler of ShipAssembled without error: the event was unreadable or names no
  -- identifier, and then nothing happened; or its order was assembled already, and then nothing
  -- happened either; or the inventory took its parts and its row is assembled now.
  pub ship_assembled_effect :
      (codec : UuidCodec) (tx : TxManager Error Db X) (now : ℤ) (event : ShipAssembledEvent)
      (d : Db) (x : X) (w' : Db × X)
      → ship_assembled_handler db ext codec tx now (some event) (d, x) ≡ (ok tt, w')
      → ((codec.parse event.order_uuid ≡ none) × (w' ≡ (d, x)))
        ⊎ ((u : ℕ) × (codec.parse event.order_uuid ≡ some u) × Assembles now u d x w')
  unfolding ship_assembled_handler
  ship_assembled_effect codec tx now event d x w' h =
      elim (Option-cases (codec.parse event.order_uuid)) [
        | inl unreadable ↦ inl (unreadable, sym (ap (λ v. v.1) (rw unreadable at h)))
        | inr (u, named) ↦
            let run = rw named at h in
            inr (
              u,
              named,
              assembled_body-eq-ok now u d x w'
                  (run-eq-ok tx (assembled_body db ext now u) d x w'.0 w'.1 run),
            )
      ]

  -- Cancel with an error leaves the tables as they were, wherever it failed, at the commit of its
  -- transaction too.
  pub cancel_rollback :
      (tx : TxManager Error Db X) (now : ℤ) (u : ℕ) (d : Db) (x : X) {e : Error} {w' : Db × X}
      → cancel db ext tx now u (d, x) ≡ (err e, w')
      → w'.0 ≡ d
  unfolding cancel
  cancel_rollback tx now u d x {e} {w'} h =
      elim (run_cases tx (cancel_body db ext now u) d x (err e) w'.0 w'.1 h) [
        | inl (fine, done) ↦ cc
        | inr (failed, kept) ↦ kept
      ]
