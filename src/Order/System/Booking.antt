-- ===== src/Order/System/Booking.antt =====
-- The inventory's counters after calls of the order service: what one service answers to its users,
-- on the tables of the other.
use rocket_factory.Prelude.{
  Bool, none, ℕ, String, ◌≡◌, ◌≢◌, ◌⊎◌, sym, ◌∙◌, ap, subst, Option, some, inl, inr, List, ok,
  UuidCodec, TxManager,
}
use rocket_factory.Prelude.Int.{ℤ, pos, ◌+ℤ◌, ◌-ℤ◌, ◌<ℤ◌}
use rocket_factory.Inventory.Errors
use rocket_factory.Inventory.Record.{PartPropertiesRecord}
use rocket_factory.Inventory.Repository
use rocket_factory.Inventory.Repository.{Table, PartFilter}
use rocket_factory.Inventory.Service.Rows.{IsStockedTable}
use rocket_factory.Inventory.Service.Reservation.{
  Changed, reserve_effect, release_effect, commit_effect,
}
use rocket_factory.Inventory.Api
use rocket_factory.Inventory.Api.Wire.{reserve_parts-to_string}
use rocket_factory.Order.Errors.{Error}
use rocket_factory.Order.Model.{
  Order, OrderParts, ShipAssembledEvent, items_uuids, pending_payment, assembled,
}
use rocket_factory.Order.Record.{OrderRecord}
use rocket_factory.Order.Consumer.{ship_assembled_handler}
use rocket_factory.Order.Service.Effects.{cancel_effect, ship_assembled_effect}
use rocket_factory.Order.Repository.{Db, Postgres, find_row}
use rocket_factory.Order.Repository.Rows.{restored}
use rocket_factory.Order.Service.{Externals, create, cancel, parts_uuids}
use rocket_factory.Order.Service.Placing.{create_effect, after_approval}
use rocket_factory.Order.Clients
use rocket_factory.Order.Clients.{inventory_error, uuids_to_strings, with_error}
use rocket_factory.Order.Clients.Paths.{StatusRules}
use rocket_factory.Order.System.{Others, inventory_stub, system}
use rocket_factory.Order.System.Replies.{
  uuids_to_strings-map, answered, listed_world, validated_world,
}

-- One more unit of each named part is reserved; one less; one less, and taken from the stock.
abbrev pub Reserved : List ℕ → Table → Table → Type 0
Reserved us =
    Changed us (λ r. record r { reserved = r.reserved +ℤ pos 1 })
      (λ r. r.reserved <ℤ r.stock_quantity)

abbrev pub Released : List ℕ → Table → Table → Type 0
Released us =
    Changed us (λ r. record r { reserved = r.reserved -ℤ pos 1 }) (λ r. pos 0 <ℤ r.reserved)

abbrev pub Taken : List ℕ → Table → Table → Type 0
Taken us =
    Changed us
      (λ r. record r { reserved = r.reserved -ℤ pos 1; stock_quantity = r.stock_quantity -ℤ pos 1 })
      (λ r. pos 0 <ℤ r.reserved)

module _ (codec : UuidCodec) (rules : StatusRules)
    (unmarshal : String → Option PartPropertiesRecord) (inventory_db : Repository.Postgres)
    {Y : Type 0} (inventory_tx : TxManager Errors.Error Table Y) (admits : Y → Bool) where
  module _ (us : List ℕ) (t : Table) (y : Y) (stocked : IsStockedTable t) where
    abbrev stub : Clients.InventoryStub (Table × Y)
    stub = inventory_stub codec rules unmarshal inventory_db inventory_tx admits

    abbrev printed : List String
    printed = uuids_to_strings codec us

    -- A call of the client that is answered without an error has changed the table as its handler did.
    pub reserve_parts-Reserved :
        (Clients.reserve_parts codec stub us (t, y)).0 ≡ ok tt
        → Reserved us t (Clients.reserve_parts codec stub us (t, y)).1.0
    unfolding Clients.reserve_parts
    reserve_parts-Reserved h =
        let same =
          ap (λ ss. Api.reserve_parts codec unmarshal inventory_db inventory_tx ss (t, y))
            (uuids_to_strings-map codec rules unmarshal inventory_db inventory_tx admits us)
          ∙ (reserve_parts-to_string codec unmarshal inventory_db inventory_tx us (t, y)).0 in
        reserve_effect unmarshal inventory_db inventory_tx us t _ y _ stocked (
          sym same
          ∙ answered codec rules unmarshal inventory_db inventory_tx admits
              (Api.reserve_parts codec unmarshal inventory_db inventory_tx printed) (t, y) h)

    pub release_parts-Released :
        (Clients.release_parts codec stub us (t, y)).0 ≡ ok tt
        → Released us t (Clients.release_parts codec stub us (t, y)).1.0
    unfolding Clients.release_parts
    release_parts-Released h =
        let same =
          ap (λ ss. Api.release_parts codec unmarshal inventory_db inventory_tx ss (t, y))
            (uuids_to_strings-map codec rules unmarshal inventory_db inventory_tx admits us)
          ∙ (reserve_parts-to_string codec unmarshal inventory_db inventory_tx us (t, y)).1 in
        release_effect unmarshal inventory_db inventory_tx us t _ y _ stocked (
          sym same
          ∙ answered codec rules unmarshal inventory_db inventory_tx admits
              (Api.release_parts codec unmarshal inventory_db inventory_tx printed) (t, y) h)

    pub commit_parts-Taken :
        (Clients.commit_parts codec stub us (t, y)).0 ≡ ok tt
        → Taken us t (Clients.commit_parts codec stub us (t, y)).1.0
    unfolding Clients.commit_parts
    commit_parts-Taken h =
        let same =
          ap (λ ss. Api.commit_parts codec unmarshal inventory_db inventory_tx ss (t, y))
            (uuids_to_strings-map codec rules unmarshal inventory_db inventory_tx admits us)
          ∙ (reserve_parts-to_string codec unmarshal inventory_db inventory_tx us (t, y)).2 in
        commit_effect unmarshal inventory_db inventory_tx us t _ y _ stocked (
          sym same
          ∙ answered codec rules unmarshal inventory_db inventory_tx admits
              (Api.commit_parts codec unmarshal inventory_db inventory_tx printed) (t, y) h)

  module _ (db : Postgres) (others : Others Y) (d : Db) (t : Table) (y : Y)
      (stocked : IsStockedTable t) where
    abbrev outside_world : Externals (Table × Y)
    outside_world = system codec rules unmarshal inventory_db inventory_tx admits others

    approval_world : (parts : OrderParts) → after_approval db outside_world parts (t, y) ≡ (t, y)
    approval_world parts =
        ap (λ w. (outside_world.inventory.validate_compatibility parts w).1)
          (listed_world codec rules unmarshal inventory_db inventory_tx admits (parts_uuids parts)
            (t, y))
        ∙ validated_world codec rules unmarshal inventory_db inventory_tx admits parts (t, y)

    -- On a stocked table of the inventory, an order that is placed has found a free unit of each of
    -- its parts, and has reserved one more unit of each and changed nothing else in that table.
    pub create-Reserved :
        (tx : TxManager Error Db (Table × Y)) (user : Option ℕ) (order_uuid : ℕ) (now : ℤ)
        (parts : OrderParts) {o : Order} {w' : Db × (Table × Y)}
        → create db outside_world tx user order_uuid now parts (d, (t, y)) ≡ (ok o, w')
        → Reserved (parts_uuids parts) t w'.1.0
    create-Reserved tx user order_uuid now parts h =
        let placed = create_effect db outside_world tx user order_uuid now parts d (t, y) h in
        let world = approval_world parts in
        let reserved =
          subst (λ w. (outside_world.inventory.reserve_parts (parts_uuids parts) w).0 ≡ ok tt) world
            placed.reserved in
        subst (Reserved (parts_uuids parts) t)
          (ap (λ w. (outside_world.inventory.reserve_parts (parts_uuids parts) w).1.0) (sym world)
            ∙ sym (ap (λ w. w.1.0) placed.outcome))
          (reserve_parts-Reserved (parts_uuids parts) t y stocked reserved)

    -- On a stocked table of the inventory, an order that is cancelled has given back one unit of each
    -- of its items, and nothing else in that table has changed.
    pub cancel-Released :
        (tx : TxManager Error Db (Table × Y)) (now : ℤ) (u : ℕ) (w' : Db × (Table × Y))
        → cancel db outside_world tx now u (d, (t, y)) ≡ (ok tt, w')
        → (r : OrderRecord) × (find_row u d.orders ≡ some r)
          × (r.status ≡ pending_payment)
          × Released (items_uuids (restored db u d r)) t w'.1.0
    cancel-Released tx now u w' h =
        let (r, there, pending, released, world) =
          cancel_effect db outside_world tx now u d (t, y) w' h in
        (
          r,
          there,
          pending,
          subst (Released (items_uuids (restored db u d r)) t) (sym (ap (λ w. w.1.0) world))
              (release_parts-Released (items_uuids (restored db u d r)) t y stocked released),
        )

    -- On a stocked table of the inventory, an event that is handled without an error and names an order
    -- that is not assembled yet has taken one unit of each item of that order from the stock and from
    -- the reservation and changed nothing else in that table. Only an event that names no identifier,
    -- or an order that is assembled already, leaves the table as it was.
    pub ship_assembled_handler-Taken :
        (tx : TxManager Error Db (Table × Y)) (now : ℤ) (event : ShipAssembledEvent)
        (w' : Db × (Table × Y))
        → ship_assembled_handler db outside_world codec tx now (some event) (d, (t, y))
          ≡ (ok tt, w')
        → ((codec.parse event.order_uuid ≡ none) × (w'.1.0 ≡ t))
          ⊎ ((u : ℕ) × (r : OrderRecord) × (codec.parse event.order_uuid ≡ some u)
              × (find_row u d.orders ≡ some r)
              × (r.status ≡ assembled)
              × (w'.1.0 ≡ t))
          ⊎ ((u : ℕ) × (r : OrderRecord) × (codec.parse event.order_uuid ≡ some u)
              × (find_row u d.orders ≡ some r)
              × (r.status ≢ assembled)
              × Taken (items_uuids (restored db u d r)) t w'.1.0)
    ship_assembled_handler-Taken tx now event w' h =
        elim (ship_assembled_effect db outside_world codec tx now event d (t, y) w' h) [
          | inl (unreadable, world) ↦ inl (unreadable, ap (λ w. w.1.0) world)
          | inr (u, named, (r, there, happened)) ↦ elim happened [
            | inl (already, world) ↦ inr (inl (u, r, named, there, already, ap (λ w. w.1.0) world))
            | inr (unfinished, committed, world) ↦ inr (
                inr (
                  u,
                  r,
                  named,
                  there,
                  unfinished,
                  subst (Taken (items_uuids (restored db u d r)) t) (sym (ap (λ w. w.1.0) world))
                      (commit_parts-Taken (items_uuids (restored db u d r)) t y stocked committed),
                ))
          ]
        ]
