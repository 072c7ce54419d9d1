-- ===== src/Order/Service/Placing.antt =====
-- What Create did when it ends without an error (order/internal/service/order/create.go).
use rocket_factory.Prelude.{
  ℕ, ◌≡◌, refl, sym, ◌∙◌, ap, subst, Bool, Bool-cases, true, false, not, ◌&&◌, inl, inr, Option,
  none, some, List, [], ◌∷◌, All, map, length, contains, ◌==◌, if◌then◌else◌, ok, err, arith,
  TxManager, run-eq-ok, map_result, map_result-cons,
}
use rocket_factory.Prelude.Counting.{is_distinct}
use rocket_factory.Prelude.Int.{ℤ, pos, ◌<ℤ◌, leb_ℤ}
use rocket_factory.Prelude.Action
use rocket_factory.Prelude.Action.{Action, lift, outside}
use rocket_factory.Order.Errors.{Error, invalid_uuid}
use rocket_factory.Order.Model.{Order, OrderItem, OrderParts, Part}
use rocket_factory.Order.Record.{OrderItemRecord, order_item_models_to_records}
use rocket_factory.Order.Repository
use rocket_factory.Order.Repository.{Db, Postgres, create_body, has_row, new_row, insert_items}
use rocket_factory.Order.Repository.Creation.{create_body-eq-ok}
use rocket_factory.Order.Service.{
  Externals, create, count_created, user_of, unique_from, validate_unique_uuids, same_length,
  item_of, parts_uuids, new_order,
}

-- The identifiers other than `uuid.Nil`.
abbrev pub non_nil : List ℕ → List ℕ
non_nil [] = []
non_nil (u ∷ us) = let rest = non_nil us in if u == 0 then rest else u ∷ rest

abbrev apart : List ℕ → List ℕ → Bool
apart [] seen = true
apart (u ∷ us) seen = not (contains u seen) && apart us seen

apart-cons :
    (us : List ℕ) (u : ℕ) (seen : List ℕ)
    → apart us (u ∷ seen) ≡ (not (contains u us) && apart us seen)
apart-cons [] u seen = refl
apart-cons (v ∷ us) u seen = ground (arith, apart-cons us u seen)

unique_from-eq :
    (ids seen : List ℕ)
    → unique_from seen ids
      ≡ (if is_distinct (non_nil ids) && apart (non_nil ids) seen then ok tt else err invalid_uuid)
unfolding unique_from
unique_from-eq [] seen = refl
unique_from-eq (u ∷ ids) seen = elim (Bool-cases (u == 0)) [
  | inl e ↦ rw e (unique_from-eq ids seen)
  | inr e ↦ ground (arith, e, unique_from-eq ids (u ∷ seen), apart-cons (non_nil ids) u seen)
]

apart-nil : (us : List ℕ) → apart us [] ≡ true
apart-nil [] = refl
apart-nil (u ∷ us) = apart-nil us

-- validateUniqueUUIDs passes exactly when no identifier other than the nil one is there twice.
pub validate_unique_uuids-eq :
    (ids : List ℕ)
    → validate_unique_uuids ids ≡ (if is_distinct (non_nil ids) then ok tt else err invalid_uuid)
unfolding validate_unique_uuids
validate_unique_uuids-eq ids = ground (arith, unique_from-eq ids [], apart-nil (non_nil ids))

-- The item of a part is the part's identifier, type and price.
abbrev pub as_item : Part → OrderItem
as_item p = record { uuid = p.uuid; part_type = p.part_type; price = p.price }

abbrev pub InStock : Part → Type 0
InStock p = pos 0 <ℤ p.stock_quantity

item_of-eq-ok : (p : Part) {i : OrderItem} → item_of p ≡ ok i → InStock p × (i ≡ as_item p)
unfolding item_of
item_of-eq-ok p h = elim (Bool-cases (leb_ℤ p.stock_quantity (pos 0))) [
  | inl e ↦ let h' = rw e at h in cc
  | inr e ↦ let h' = rw e at h in (ground (arith, e), cc)
]

items-eq-ok :
    (ps : List Part) {items : List OrderItem}
    → map_result item_of ps ≡ ok items
    → All InStock ps × (items ≡ map as_item ps)
items-eq-ok [] h = (tt, cc)
items-eq-ok (p ∷ ps) h =
    let (i, is, first, rest, same) = map_result-cons item_of p ps h in
    let (stock, as_one) = item_of-eq-ok p first in
    let (stocks, as_all) = items-eq-ok ps rest in ((stock, stocks), cc (same, as_one, as_all))

same_length-eq-ok :
    {A B : Type 0} (xs : List A) (ys : List B) → same_length xs ys ≡ ok tt → length xs ≡ length ys
same_length-eq-ok xs ys h = ground (arith, h)

user_of-eq-ok : (user : Option ℕ) {u : ℕ} → user_of user ≡ ok u → user ≡ some u
user_of-eq-ok none h = cc
user_of-eq-ok (some u) h = cc

passed : (b : Bool) → (if b then ok tt else err invalid_uuid) ≡ ok tt → b ≡ true
passed true h = refl
passed false h = cc

module _ (db : Postgres) {X : Type 0} (ext : Externals X) where
  -- The world after the calls of the inventory that Create makes, one after the other.
  abbrev pub after_listing : OrderParts → X → X
  after_listing parts x = (ext.inventory.list_parts (parts_uuids parts) x).1

  abbrev pub after_approval : OrderParts → X → X
  after_approval parts x = (ext.inventory.validate_compatibility parts (after_listing parts x)).1

  abbrev pub after_reservation : OrderParts → X → X
  after_reservation parts x =
      (ext.inventory.reserve_parts (parts_uuids parts) (after_approval parts x)).1

  -- What has happened when an order was placed over the tables `d` in the world `x`.
  pub record IsPlaced (user : Option ℕ) (order_uuid : ℕ) (now : ℤ) (parts : OrderParts) (d : Db)
      (x : X) (o : Order) (w' : Db × X) : Type 0 where
    pub user_uuid : ℕ
    pub known : user ≡ some user_uuid
    pub distinct : is_distinct (non_nil (parts_uuids parts)) ≡ true
    pub listed : List Part
    pub answered : (ext.inventory.list_parts (parts_uuids parts) x).0 ≡ ok listed
    pub complete : length listed ≡ length (parts_uuids parts)
    pub in_stock : All InStock listed
    pub order : o ≡ new_order order_uuid user_uuid now (map as_item listed)
    pub approved : (ext.inventory.validate_compatibility parts (after_listing parts x)).0 ≡ ok tt
    pub reserved :
        (ext.inventory.reserve_parts (parts_uuids parts) (after_approval parts x)).0 ≡ ok tt
    pub rows : List OrderItemRecord
    pub fresh : has_row order_uuid d.orders ≡ false
    pub inserted :
        insert_items
          (new_row db.timestamp o ∷ d.orders)
          (order_item_models_to_records order_uuid o.items)
          d.items
        ≡ some rows
    pub outcome : w' ≡ (
      record { orders = new_row db.timestamp o ∷ d.orders; items = rows },
      ext.orders_created_total (pos 1) (after_reservation parts x),
    )

  -- The last two steps of Create.
  recorded :
      (tx : TxManager Error Db X) (o' : Order) (d : Db) (x : X) {o : Order} {w' : Db × X}
      → Action.◌>>◌ (Repository.create db tx o') (count_created db ext o') (d, x) ≡ (ok o, w')
      → (rows : List OrderItemRecord) × (has_row o'.uuid d.orders ≡ false)
        × (o ≡ o')
        × (insert_items
              (new_row db.timestamp o ∷ d.orders)
              (order_item_models_to_records o'.uuid o.items)
              d.items
            ≡ some rows)
        × (w' ≡ (
          record { orders = new_row db.timestamp o ∷ d.orders; items = rows },
          ext.orders_created_total (pos 1) x,
        ))
  unfolding Repository.create
  recorded tx o' d x {o} {w'} h =
      let write = Repository.create db tx o' in
      let v = (write (d, x)).1 in
      let (_, wrote, rest) = Action.>>=-eq-ok write (λ _. count_created db ext o') (d, x) w' h in
      let (rows, fresh, inserted, world) =
        create_body-eq-ok db o' d x
          (run-eq-ok tx (create_body db o') d x v.0 v.1 (ap (λ r. (r, v)) wrote)) in
      let done = rw world at rest in
      let same : o' ≡ o = cc in
      (
        rows,
        fresh,
        sym same,
        subst
            (λ q.
              insert_items (new_row db.timestamp q ∷ d.orders)
                (order_item_models_to_records o'.uuid q.items) d.items
              ≡ some rows)
            same inserted,
        sym (ap (λ q. q.1) done)
            ∙ ap
                (λ q. (
                  record { orders = new_row db.timestamp q ∷ d.orders; items = rows },
                  ext.orders_created_total (pos 1) x,
                ))
                same,
      )

  -- Create without error: the caller is known, no part is named twice, the inventory listed as many
  -- parts as were named, all in stock, approved the ship and reserved the parts; the order that is
  -- returned has those parts at their prices, and its rows are in the tables, where its key was free.
  pub create_effect :
      (tx : TxManager Error Db X) (user : Option ℕ) (order_uuid : ℕ) (now : ℤ) (parts : OrderParts)
      (d : Db) (x : X) {o : Order} {w' : Db × X}
      → create db ext tx user order_uuid now parts (d, x) ≡ (ok o, w')
      → IsPlaced user order_uuid now parts d x o w'
  unfolding create
  create_effect tx user order_uuid now parts d x {o} {w'} h =
      let ids = parts_uuids parts in
      let (u, h_user, h1) = Action.>>=-eq-ok (lift (user_of user)) _ (d, x) w' h in
      let (_, h_unique, h2) = Action.>>=-eq-ok (lift (validate_unique_uuids ids)) _ (d, x) w' h1 in
      let (listed, h_listed, h3) =
        Action.>>=-eq-ok (outside (ext.inventory.list_parts ids)) _ (d, x) w' h2 in
      let (_, h_length, h4) =
        Action.>>=-eq-ok (lift (same_length listed ids)) _ (d, after_listing parts x) w' h3 in
      let (items, h_items, h5) =
        Action.>>=-eq-ok (lift (map_result item_of listed)) _ (d, after_listing parts x) w' h4 in
      let (_, h_ok, h6) =
        Action.>>=-eq-ok (outside (ext.inventory.validate_compatibility parts)) _
          (d, after_listing parts x) w' h5 in
      let (_, h_reserved, h7) =
        Action.>>=-eq-ok (outside (ext.inventory.reserve_parts ids)) _ (d, after_approval parts x)
          w' h6 in
      let (rows, fresh, same, inserted, world) =
        recorded tx (new_order order_uuid u now items) d (after_reservation parts x) h7 in
      let (stocks, same_items) = items-eq-ok listed h_items in
      let unique = validate_unique_uuids-eq ids in
      record {
        user_uuid = u;
        known = user_of-eq-ok user h_user;
        distinct = passed (is_distinct (non_nil ids)) (sym unique ∙ h_unique);
        listed = listed;
        answered = h_listed;
        complete = same_length-eq-ok listed ids h_length;
        in_stock = stocks;
        order = same ∙ ap (new_order order_uuid u now) same_items;
        approved = h_ok;
        reserved = h_reserved;
        rows = rows;
        fresh = fresh;
        inserted = inserted;
        outcome = world;
      }
