-- ===== src/Order/System/Balance.antt =====
-- What placing, paying, cancelling and assembling an order do to the accounts of the two services
-- (order/internal/service/order, order/internal/consumer/assembly_consumer).
use rocket_factory.Prelude.{
  ℕ, ◌+◌, String, ◌≡◌, refl, sym, ◌∙◌, subst, Bool, true, false, some, List, [], ◌∷◌, All, All-map,
  map, contains, arith,
}
use rocket_factory.Prelude.Counting.{is_distinct}
use rocket_factory.Prelude.Int.{ℤ}
use rocket_factory.Inventory.Record.{PartRecord}
use rocket_factory.Inventory.Repository.{Table, is_empty}
use rocket_factory.Inventory.Service.Changed.{touches}
use rocket_factory.Inventory.Service.Rows.{IsStockedTable}
use rocket_factory.Order.Model.{Order, OrderItem, items_uuids, pending_payment}
use rocket_factory.Order.Record.{
  OrderRecord, OrderItemRecord, order_item_model_to_record, order_item_models_to_records,
}
use rocket_factory.Order.Repository.{Row, Db, Postgres, find_row, has_row, insert_items, new_row}
use rocket_factory.Order.Repository.Rows.{order_ids, order_ids-update_rows}
use rocket_factory.Order.Repository.Creation.{All-insert_items, All-HasOrder_new}
use rocket_factory.Order.Service.Effects.{written}
use rocket_factory.Order.Service.Lifecycle.{HasOrder-update_rows}
use rocket_factory.Order.System.Units.{
  bit, when, read_ids, units-create, units-written, units-unmoved,
}
use rocket_factory.Order.System.Booking.{Reserved, Released, Taken}
use rocket_factory.Order.System.Accounts.{
  is_open, is_assembled, units_of, Counted, HasItems, IsBalanced, All-Changed,
  Changed-IsStockedTable, All-find_row, read_ids-nonempty, HasItems-insert_items,
}
use rocket_factory.Order.System.Counters.{
  reserved-IsStockedRow, released-IsStockedRow, taken-IsStockedRow, reserved-Counted,
  released-Counted, taken-Counted, same-Counted,
}

-- A request that names something touches the rows that it names.
touches-contains : (us : List ℕ) (u : ℕ) → is_empty us ≡ false → touches us u ≡ contains u us
touches-contains [] u h = cc
touches-contains (v ∷ us) u h = refl

HasItems-new :
    (u : ℕ) (rows : List Row) (its : List OrderItem) (items : List OrderItemRecord)
    {items' : List OrderItemRecord}
    → is_empty (map (λ item. item.uuid) its) ≡ false
    → insert_items rows (order_item_models_to_records u its) items ≡ some items'
    → HasItems items' u
unfolding order_item_models_to_records
HasItems-new u rows [] items ne h = cc
HasItems-new u rows (i ∷ its) items {items'} ne h =
    HasItems-insert_items u rows (order_item_models_to_records u its)
      (order_item_model_to_record u i ∷ items) {items' = items'} (ground (arith, h)) (ground arith)

module _ (supply : ℕ → ℤ) where
  -- Placing an order.
  pub inserted-IsBalanced :
      (timestamp : ℤ → ℤ) (o : Order) (d : Db) (t t' : Table) (rows : List OrderItemRecord)
      → o.status ≡ pending_payment
      → has_row o.uuid d.orders ≡ false
      → insert_items
          (new_row timestamp o ∷ d.orders)
          (order_item_models_to_records o.uuid o.items)
          d.items
        ≡ some rows
      → is_empty (items_uuids o) ≡ false
      → Reserved (items_uuids o) t t'
      → IsBalanced supply d t
      → IsBalanced supply (record { orders = new_row timestamp o ∷ d.orders; items = rows }) t'
  unfolding items_uuids
  inserted-IsBalanced timestamp o d t t' rows pending fresh inserted ne reserved b =
      let ids = items_uuids o in
      let d' : Db = record { orders = new_row timestamp o ∷ d.orders; items = rows } in
      let opened : is_open o.status ≡ true = rw pending refl in
      let undone : is_assembled o.status ≡ false = rw pending refl in
      let opened_units = λ (p : ℕ).
        units-create timestamp is_open p o d.orders d.items {items' = rows} fresh b.owned inserted
          reserved.0 in
      let done_units = λ (p : ℕ).
        units-create timestamp is_assembled p o d.orders d.items {items' = rows} fresh b.owned
          inserted reserved.0 in
      record {
        owned =
            All-insert_items (new_row timestamp o ∷ d.orders) _ d.items {items' = rows} inserted
              (All-HasOrder_new (new_row timestamp o) d.orders d.items b.owned);
        itemed = (
          HasItems-new o.uuid (new_row timestamp o ∷ d.orders) o.items d.items {items' = rows} ne
              inserted,
          All-map
              (λ u has.
                HasItems-insert_items u (new_row timestamp o ∷ d.orders) _ d.items {items' = rows}
                  inserted has)
              (order_ids d.orders) b.itemed,
        );
        stocked =
            Changed-IsStockedTable ids _ _ t t' reserved (λ r. refl) reserved-IsStockedRow
              b.stocked;
        counted =
            All-Changed ids _ _ t t' reserved
              (λ r c e had.
                let e' = sym (touches-contains ids r.uuid ne) ∙ e in
                reserved-Counted supply d d' r (rw (opened, e') at (opened_units r.uuid))
                  (ground (arith, done_units r.uuid, undone)) c)
              (λ r c e.
                let e' = sym (touches-contains ids r.uuid ne) ∙ e in
                same-Counted supply d d' r (ground (arith, opened_units r.uuid, e'))
                  (ground (arith, done_units r.uuid, undone)) c)
              b.counted;
      }

  -- Writing an order whose row was found, with the table after it and the counters of its rows.
  module _ (db : Postgres) (u : ℕ) (d : Db) {r : OrderRecord} (there : find_row u d.orders ≡ some r)
      (now : ℤ) (o : Order) (same_id : o.uuid ≡ r.uuid) (t : Table)
      (b : IsBalanced supply d t) where
    abbrev ids : List ℕ
    ids = read_ids db u d r

    written-IsBalanced :
        (t' : Table)
        → IsStockedTable t'
        → All (Counted supply (written now o d)) t'
        → IsBalanced supply (written now o d) t'
    written-IsBalanced t' stocked counted = record {
      owned = All-map (HasOrder-update_rows now o d.orders) d.items b.owned;
      itemed = subst (All (HasItems d.items)) (sym (order_ids-update_rows now o d.orders)) b.itemed;
      stocked = stocked;
      counted = counted;
    }

    -- Where the order stays open, the inventory is left alone.
    pub paid-IsBalanced :
        is_open r.status ≡ is_open o.status
        → is_assembled r.status ≡ is_assembled o.status
        → IsBalanced supply (written now o d) t
    paid-IsBalanced still_open still_built = written-IsBalanced t b.stocked (
        All-map
          (λ q.
            same-Counted supply d (written now o d) q
              (units-unmoved db u d there now o same_id is_open q.uuid still_open)
              (units-unmoved db u d there now o same_id is_assembled q.uuid still_built))
          t b.counted)

    asked : is_empty ids ≡ false
    asked = read_ids-nonempty db u d r (All-find_row (HasItems d.items) u d.orders there b.itemed)

    moved :
        (f : String → Bool) (q : PartRecord) {before after : Bool}
        → f r.status ≡ before
        → f o.status ≡ after
        → is_distinct ids ≡ true
        → units_of f q.uuid (written now o d) + when before (bit (touches ids q.uuid))
          ≡ units_of f q.uuid d + when after (bit (touches ids q.uuid))
    moved f q {before} {after} from_state to_state once =
        rw (← from_state, ← to_state, touches-contains ids q.uuid asked)
          (units-written db u d there now o same_id f q.uuid once)

    -- Where the order was open and is closed without being assembled, a unit of each part is released.
    pub cancelled-IsBalanced :
        (t' : Table)
        → is_open r.status ≡ true
        → is_open o.status ≡ false
        → is_assembled r.status ≡ false
        → is_assembled o.status ≡ false
        → Released ids t t'
        → IsBalanced supply (written now o d) t'
    cancelled-IsBalanced t' was_open closed unbuilt undone released =
        written-IsBalanced t'
          (Changed-IsStockedTable ids _ _ t t' released (λ q. refl) released-IsStockedRow b.stocked)
          (All-Changed ids _ _ t t' released
            (λ q c e had.
              released-Counted supply d (written now o d) q
                (ground (arith, e, moved is_open q was_open closed released.0))
                (ground (arith, e, moved is_assembled q unbuilt undone released.0)) c)
            (λ q c e.
              same-Counted supply d (written now o d) q
                (ground (arith, e, moved is_open q was_open closed released.0))
                (ground (arith, e, moved is_assembled q unbuilt undone released.0)) c)
            b.counted)

    -- Where the order was open and is assembled, a unit of each part is taken.
    pub assembled-IsBalanced :
        (t' : Table)
        → is_open r.status ≡ true
        → is_open o.status ≡ false
        → is_assembled r.status ≡ false
        → is_assembled o.status ≡ true
        → Taken ids t t'
        → IsBalanced supply (written now o d) t'
    assembled-IsBalanced t' was_open closed unbuilt built taken =
        written-IsBalanced t'
          (Changed-IsStockedTable ids _ _ t t' taken (λ q. refl) taken-IsStockedRow b.stocked)
          (All-Changed ids _ _ t t' taken
            (λ q c e had.
              taken-Counted supply d (written now o d) q
                (ground (arith, e, moved is_open q was_open closed taken.0))
                (ground (arith, e, moved is_assembled q unbuilt built taken.0)) c)
            (λ q c e.
              same-Counted supply d (written now o d) q
                (ground (arith, e, moved is_open q was_open closed taken.0))
                (ground (arith, e, moved is_assembled q unbuilt built taken.0)) c)
            b.counted)
