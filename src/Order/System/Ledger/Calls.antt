-- ===== src/Order/System/Ledger/Calls.antt =====
-- What each call of a run does to the announced orders and to the accounts
-- (order/internal/service/order, order/internal/consumer/assembly_consumer).
use rocket_factory.Prelude.{
  Bool, ℕ, String, ◌≡◌, refl, sym, ◌∙◌, ap, subst, true, contains, ◌⊎◌, inl, inr, Option, some,
  List, [], ◌∷◌, All, All-map, map, ok, arith, UuidCodec, TxManager,
}
use rocket_factory.Prelude.Int.{ℤ}
use rocket_factory.Inventory.Errors
use rocket_factory.Inventory.Record.{PartPropertiesRecord}
use rocket_factory.Inventory.Repository
use rocket_factory.Inventory.Repository.{Table}
use rocket_factory.Order.Errors.{Error}
use rocket_factory.Order.Model.{
  Order, Part, OrderParts, ShipAssembledEvent, items_uuids, paid, cancelled, assembled,
}
use rocket_factory.Order.Record.{OrderRecord, order_item_models_to_records}
use rocket_factory.Order.Consumer.{ship_assembled_handler}
use rocket_factory.Order.Repository.{Db, Postgres, find_row, insert_items, new_row}
use rocket_factory.Order.Repository.Rows.{restored, find_row-uuid}
use rocket_factory.Order.Service.{Externals, Captured, create, cancel, pay, parts_uuids, paid_order}
use rocket_factory.Order.Service.Effects.{cancel_effect, ship_assembled_effect}
use rocket_factory.Order.Service.Paying.{pay_effect}
use rocket_factory.Order.Service.Placing.{create_effect, as_item}
use rocket_factory.Order.Clients.Paths.{StatusRules}
use rocket_factory.Order.System.{Others, system}
use rocket_factory.Order.System.Booking.{
  Reserved, create-Reserved, release_parts-Released, commit_parts-Taken,
}
use rocket_factory.Order.System.Listing.{list_parts-uuids}
use rocket_factory.Order.System.Announced.{
  was_paid, WasPaid, was_paid-cases, All-contains, WasPaid-new_row, WasPaid-written,
  written-WasPaid,
}
use rocket_factory.Order.System.Ledger.{World, Announced, Fits}
use rocket_factory.Order.System.Accounts.{IsBalanced, is_open, is_assembled}
use rocket_factory.Order.System.Balance.{
  inserted-IsBalanced, paid-IsBalanced, cancelled-IsBalanced, assembled-IsBalanced,
}

as_item-uuids : (ps : List Part) → map (λ item. item.uuid) (map as_item ps) ≡ map (λ p. p.uuid) ps
as_item-uuids [] = refl
as_item-uuids (p ∷ ps) = ap (λ us. p.uuid ∷ us) (as_item-uuids ps)

module _ (codec : UuidCodec) (rules : StatusRules)
    (unmarshal : String → Option PartPropertiesRecord) (inventory_db : Repository.Postgres)
    {Y : Type 0} (inventory_tx : TxManager Errors.Error Table Y) (admits : Y → Bool) (db : Postgres)
    (others : Others Y) where
  abbrev outside_world : Externals (Table × Y)
  outside_world = system codec rules unmarshal inventory_db inventory_tx admits others

  pub create-Announced :
      (tx : TxManager Error Db (Table × Y)) (user : Option ℕ) (order_uuid : ℕ) (now : ℤ)
      (parts : OrderParts) (sent : List ℕ) (w : World Y) {o : Order} {w' : World Y}
      → create db outside_world tx user order_uuid now parts w ≡ (ok o, w')
      → Announced w sent
      → Announced w' sent
  create-Announced tx user order_uuid now parts sent w {o} {w'} h all =
      let placed = create_effect db outside_world tx user order_uuid now parts w.0 w.1 h in
      let key : o.uuid ≡ order_uuid = ap (λ q. q.uuid) placed.order in
      subst (λ v. Announced v sent) (sym placed.outcome)
        (All-map (λ v. WasPaid-new_row db.timestamp o w.0.orders v (rw key placed.fresh)) sent all)

  pub pay-Announced :
      (tx : TxManager Error Db (Captured × (Table × Y))) (now : ℤ) (u : ℕ) (method : String)
      (sent : List ℕ) (w : World Y) {t : ℕ} {w' : World Y}
      → pay db outside_world codec tx now u method w ≡ (ok t, w')
      → Announced w sent
      → Announced w' (u ∷ sent)
  pay-Announced tx now u method sent w {t} {w'} h all =
      let (given, r, there, pending, answered, told, world) =
        pay_effect db outside_world codec tx now u method w.0 w.1 h in
      let o = paid_order (restored db u w.0 r) t method in
      let key : o.uuid ≡ u = find_row-uuid u w.0.orders {r = r} there in
      (
        subst (λ v. WasPaid v.0.orders u) (sym world)
            (WasPaid-written (db.timestamp now) o w.0.orders {r = r} u there key refl),
        written-WasPaid u w.0 (db.timestamp now) o sent there refl (λ h. refl) (ap (λ v. v.0) world)
            all,
      )

  pub cancel-Announced :
      (tx : TxManager Error Db (Table × Y)) (now : ℤ) (u : ℕ) (sent : List ℕ) (w : World Y)
      {w' : World Y}
      → cancel db outside_world tx now u w ≡ (ok tt, w')
      → Announced w sent
      → Announced w' sent
  cancel-Announced tx now u sent w h all =
      let (r, there, pending, released, world) =
        cancel_effect db outside_world tx now u w.0 w.1 _ h in
      let o : Order = record (restored db u w.0 r) { status = cancelled } in
      written-WasPaid u w.0 (db.timestamp now) o sent there refl (λ bad. cc (ap was_paid pending))
        (ap (λ v. v.0) world) all

  pub deliver-Announced :
      (tx : TxManager Error Db (Table × Y)) (now : ℤ) (event : ShipAssembledEvent) (sent : List ℕ)
      (w : World Y) {w' : World Y}
      → ship_assembled_handler db outside_world codec tx now (some event) w ≡ (ok tt, w')
      → Announced w sent
      → Announced w' sent
  deliver-Announced tx now event sent w h all =
      elim (ship_assembled_effect db outside_world codec tx now event w.0 w.1 _ h) [
        | inl (unreadable, world) ↦ subst (λ v. Announced v sent) (sym world) all
        | inr (u, named, (r, there, happened)) ↦ elim happened [
          | inl (already, world) ↦ subst (λ v. Announced v sent) (sym world) all
          | inr (unfinished, committed, world) ↦
              let o : Order = record (restored db u w.0 r) { status = assembled } in
              written-WasPaid u w.0 (db.timestamp now) o sent there refl (λ h. refl)
                (ap (λ v. v.0) world) all
        ]
      ]

  module _ (supply : ℕ → ℤ) where
    pub create-IsBalanced :
        (tx : TxManager Error Db (Table × Y)) (user : Option ℕ) (order_uuid : ℕ) (now : ℤ)
        (parts : OrderParts) (d : Db) (t : Table) (y : Y) {o : Order} {w' : World Y}
        → create db outside_world tx user order_uuid now parts (d, (t, y)) ≡ (ok o, w')
        → IsBalanced supply d t
        → Fits supply w'
    unfolding items_uuids
    create-IsBalanced tx user order_uuid now parts d t y {o} {w'} h b =
        let placed = create_effect db outside_world tx user order_uuid now parts d (t, y) h in
        let listed =
          list_parts-uuids codec rules unmarshal inventory_db inventory_tx admits
            (parts_uuids parts) t y refl b.stocked.keys placed.answered in
        let reserved =
          create-Reserved codec rules unmarshal inventory_db inventory_tx admits db others d t y
            b.stocked tx user order_uuid now parts h in
        let named : items_uuids o ≡ parts_uuids parts =
          ap (λ q. items_uuids q) placed.order ∙ as_item-uuids placed.listed ∙ listed in
        let key : o.uuid ≡ order_uuid = ap (λ q. q.uuid) placed.order in
        subst (λ d'. IsBalanced supply d' w'.1.0) (sym (ap (λ w. w.0) placed.outcome))
          (inserted-IsBalanced supply db.timestamp o d t w'.1.0 placed.rows
            (ap (λ q. q.status) placed.order) (rw key placed.fresh)
            (subst
              (λ v.
                insert_items (new_row db.timestamp o ∷ d.orders)
                  (order_item_models_to_records v o.items) d.items
                ≡ some placed.rows)
              (sym key) placed.inserted)
            (rw named refl) (subst (λ us. Reserved us t w'.1.0) (sym named) reserved) b)

    pub pay-IsBalanced :
        (tx : TxManager Error Db (Captured × (Table × Y))) (now : ℤ) (u : ℕ) (method : String)
        (d : Db) (t : Table) (y : Y) {transaction_uuid : ℕ} {w' : World Y}
        → pay db outside_world codec tx now u method (d, (t, y)) ≡ (ok transaction_uuid, w')
        → IsBalanced supply d t
        → Fits supply w'
    pay-IsBalanced tx now u method d t y {transaction_uuid} {w'} h b =
        let (given, r, there, pending, answered, sent, world) =
          pay_effect db outside_world codec tx now u method d (t, y) h in
        subst (Fits supply) (sym world) (
          paid-IsBalanced supply db u d there (db.timestamp now)
            (paid_order (restored db u d r) transaction_uuid method) refl t b (ap is_open pending)
            (ap is_assembled pending))

    pub cancel-IsBalanced :
        (tx : TxManager Error Db (Table × Y)) (now : ℤ) (u : ℕ) (d : Db) (t : Table) (y : Y)
        {w' : World Y}
        → cancel db outside_world tx now u (d, (t, y)) ≡ (ok tt, w')
        → IsBalanced supply d t
        → Fits supply w'
    cancel-IsBalanced tx now u d t y {w'} h b =
        let (r, there, pending, released, world) =
          cancel_effect db outside_world tx now u d (t, y) w' h in
        let o : Order = record (restored db u d r) { status = cancelled } in
        subst (Fits supply) (sym world) (
          cancelled-IsBalanced supply db u d there (db.timestamp now) o refl t b _
            (ap is_open pending) refl (ap is_assembled pending) refl
            (release_parts-Released codec rules unmarshal inventory_db inventory_tx admits
              (items_uuids (restored db u d r)) t y b.stocked released))

    pub deliver-IsBalanced :
        (tx : TxManager Error Db (Table × Y)) (now : ℤ) (event : ShipAssembledEvent) (d : Db)
        (t : Table) (y : Y) {w' : World Y} (sent : List ℕ) (v : ℕ)
        → codec.parse event.order_uuid ≡ some v
        → contains v sent ≡ true
        → All (WasPaid d.orders) sent
        → ship_assembled_handler db outside_world codec tx now (some event) (d, (t, y))
          ≡ (ok tt, w')
        → IsBalanced supply d t
        → Fits supply w'
    deliver-IsBalanced tx now event d t y {w'} sent v named_v told announced h b =
        let sold : (u : ℕ) (r : OrderRecord)
            → codec.parse event.order_uuid ≡ some u
            → find_row u d.orders ≡ some r
            → (r.status ≡ paid) ⊎ (r.status ≡ assembled) =
          λ u r named there.
            let same : v ≡ u = cc (named, named_v) in
            let bought =
              rw (same, there) at (All-contains (WasPaid d.orders) v sent told announced) in
            was_paid-cases r.status bought in
        elim (ship_assembled_effect db outside_world codec tx now event d (t, y) w' h) [
          | inl (unreadable, world) ↦ subst (Fits supply) (sym world) b
          | inr (u, named, (r, there, happened)) ↦ elim happened [
            | inl (already, world) ↦ subst (Fits supply) (sym world) b
            | inr (unfinished, committed, world) ↦
                let o : Order = record (restored db u d r) { status = assembled } in
                elim (sold u r named there) [
                  | inr built ↦ ground (arith, unfinished, built)
                  | inl bought ↦ subst (Fits supply) (sym world) (
                      assembled-IsBalanced supply db u d there (db.timestamp now) o refl t b _
                        (ap is_open bought) refl (ap is_assembled bought) refl
                        (commit_parts-Taken codec rules unmarshal inventory_db inventory_tx admits
                          (items_uuids (restored db u d r)) t y b.stocked committed))
                ]
          ]
        ]
