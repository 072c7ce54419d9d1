-- ===== src/Order/Service/Runs.antt =====
-- Every order of the calls of the order service, of the events that it receives and of what happens
-- elsewhere (order/internal/service/order, order/internal/consumer/assembly_consumer).
use rocket_factory.Prelude.{
  ℕ, String, ◌≡◌, refl, sym, ◌∙◌, ap, subst, Option, ◌∷◌, TxManager, UuidCodec, run_keeps,
  map_result,
}
use rocket_factory.Prelude.Int.{ℤ}
use rocket_factory.Prelude.Action
use rocket_factory.Prelude.Action.{Action, Keeps, lift, outside}
use rocket_factory.Order.Errors.{Error}
use rocket_factory.Order.Model.{Order, OrderParts, ShipAssembledEvent, pending_payment}
use rocket_factory.Order.Repository
use rocket_factory.Order.Repository.{Row, Db, Postgres, create_body, has_row}
use rocket_factory.Order.Repository.Rows.{has_row-contains}
use rocket_factory.Order.Repository.Creation.{All-insert_items, All-HasOrder_new, create_body-eq-ok}
use rocket_factory.Order.Service.{
  new_order, Externals, Captured, create, cancel, pay, user_of, validate_unique_uuids, same_length,
  item_of, parts_uuids,
}
use rocket_factory.Order.Service.Lifecycle.{
  IsConsistent, in_pending, cancel-IsConsistent, pay-IsConsistent, handler-IsConsistent,
}
use rocket_factory.Order.Consumer.{ship_assembled_handler}

module _ (db : Postgres) {X : Type 0} (ext : Externals X) where
  abbrev Consistent : Db × X → Type 0
  Consistent w = IsConsistent w.0

  create_rows-IsConsistent :
      (tx : TxManager Error Db X) (o : Order)
      → o.status ≡ pending_payment
      → Keeps Consistent (Repository.create db tx o)
  unfolding Repository.create
  create_rows-IsConsistent tx o pending (d, x) c =
      run_keeps IsConsistent tx (create_body db o) d x
        (λ d' x' done.
          let (items, free, inserted, world) = create_body-eq-ok db o d x done in
          subst IsConsistent (sym (ap (λ v. v.0) world)) (record {
            distinct = (sym (has_row-contains o.uuid d.orders) ∙ free, c.distinct);
            owned =
                All-insert_items (Repository.new_row db.timestamp o ∷ d.orders) _ d.items inserted
                  (All-HasOrder_new (Repository.new_row db.timestamp o) d.orders d.items c.owned);
            staged = (in_pending pending refl refl, c.staged);
          }))
        c

  create-IsConsistent :
      (tx : TxManager Error Db X) (user : Option ℕ) (order_uuid : ℕ) (now : ℤ) (parts : OrderParts)
      → Keeps Consistent (create db ext tx user order_uuid now parts)
  unfolding create
  create-IsConsistent tx user order_uuid now parts =
      Action.>>=-Keeps Consistent (lift (user_of user)) _ (λ w c. c)
        (λ user_uuid.
          Action.>>=-Keeps Consistent (lift (validate_unique_uuids (parts_uuids parts))) _
            (λ w c. c)
            (λ _.
              Action.>>=-Keeps Consistent (outside (ext.inventory.list_parts (parts_uuids parts))) _
                (λ w c. c)
                (λ listed.
                  Action.>>=-Keeps Consistent (lift (same_length listed (parts_uuids parts))) _
                    (λ w c. c)
                    (λ _.
                      Action.>>=-Keeps Consistent (lift (map_result item_of listed)) _ (λ w c. c)
                        (λ order_items.
                          Action.>>=-Keeps Consistent
                            (outside (ext.inventory.validate_compatibility parts)) _ (λ w c. c)
                            (λ _.
                              Action.>>=-Keeps Consistent
                                (outside (ext.inventory.reserve_parts (parts_uuids parts))) _
                                (λ w c. c)
                                (λ _.
                                  Action.>>=-Keeps Consistent
                                    (Repository.create db tx
                                      (new_order order_uuid user_uuid now order_items))
                                    _
                                    (create_rows-IsConsistent tx
                                      (new_order order_uuid user_uuid now order_items) refl)
                                    (λ _ w c. c))))))))

  module _ (codec : UuidCodec) (tx : TxManager Error Db X)
      (pay_tx : TxManager Error Db (Captured × X)) where
    -- A call of the service or an event that it handles, whatever its result; or something that
    -- happens outside.
    pub data Step : Db × X → Db × X → Type 0 where
      creates :
          (user : Option ℕ) (order_uuid : ℕ) (now : ℤ) (parts : OrderParts) (w : Db × X)
          → Step w (create db ext tx user order_uuid now parts w).1
      pays :
          (now : ℤ) (order_uuid : ℕ) (method : String) (w : Db × X)
          → Step w (pay db ext codec pay_tx now order_uuid method w).1
      cancels :
          (now : ℤ) (order_uuid : ℕ) (w : Db × X) → Step w (cancel db ext tx now order_uuid w).1
      assembles :
          (now : ℤ) (event : Option ShipAssembledEvent) (w : Db × X)
          → Step w (ship_assembled_handler db ext codec tx now event w).1
      elsewhere : (d : Db) (x x' : X) → Step (d, x) (d, x')

    pub data Reach : Db × X → Db × X → Type 0 where
      stay : (w : Db × X) → Reach w w
      then_step : (w v u : Db × X) → Reach w v → Step v u → Reach w u

    step-IsConsistent : (w v : Db × X) → Step w v → IsConsistent w.0 → IsConsistent v.0
    step-IsConsistent _ _ (creates user u now parts w) c =
        create-IsConsistent tx user u now parts w c
    step-IsConsistent _ _ (pays now u method w) c =
        pay-IsConsistent db ext codec pay_tx now u method w.0 w.1 c
    step-IsConsistent _ _ (cancels now u w) c = cancel-IsConsistent db ext tx now u w.0 w.1 c
    step-IsConsistent _ _ (assembles now event w) c =
        handler-IsConsistent db ext codec tx now event w.0 w.1 c
    step-IsConsistent _ _ (elsewhere d x x') c = c

    -- From consistent tables, whatever calls and events come in whatever order, and however each
    -- of them ends, the tables stay consistent: one row for each order, items only of orders that
    -- are there, a pending or cancelled order with no transaction and no method, a paid order with
    -- both.
    pub Reach-IsConsistent : (w v : Db × X) → Reach w v → IsConsistent w.0 → IsConsistent v.0
    Reach-IsConsistent _ _ (stay w) c = c
    Reach-IsConsistent _ _ (then_step w z v before last) c =
        step-IsConsistent z v last (Reach-IsConsistent w z before c)
