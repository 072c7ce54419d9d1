-- ===== src/Order/Repository/Rows.antt =====
-- What the statements of the orders repository read and write
-- (order/internal/repository/order/update.go, query_order.go).
use rocket_factory.Prelude.{
  ℕ, ◌≡◌, refl, ap, Bool, Bool-cases, true, false, inl, inr, Option, none, some, Option-cases, List,
  [], ◌∷◌, All, IsDistinct, contains, ◌==◌, Result, ok, err, arith, map,
}
use rocket_factory.Prelude.Int.{ℤ}
use rocket_factory.Prelude.Action
use rocket_factory.Prelude.Action.{fail_if, lift, pure}
use rocket_factory.Order.Errors.{Error, order_not_found}
use rocket_factory.Order.Model.{Order}
use rocket_factory.Order.Record.{OrderRecord, order_record_to_model, order_item_records_to_models}
use rocket_factory.Order.Repository.{
  Row, Db, Postgres, find_row, has_row, set_row, update_rows, rows_affected, items_of, get_order,
  get_order_items, get_with_items, get_for_update, update, update_order,
}

abbrev pub order_ids : List Row → List ℕ
order_ids = map (λ r. r.order.uuid)

pub has_row-contains : (u : ℕ) (rows : List Row) → has_row u rows ≡ contains u (order_ids rows)
has_row-contains u [] = refl
has_row-contains u (r ∷ rows) = rw (has_row-contains u rows) refl

pub find_row-uuid :
    (u : ℕ) (rows : List Row) {r : OrderRecord} → find_row u rows ≡ some r → r.uuid ≡ u
find_row-uuid u [] {r = r} h = cc
find_row-uuid u (row ∷ rows) {r = r} h = elim (Bool-cases (u == row.order.uuid)) [
  | inl e ↦ ground (arith, e, h)
  | inr e ↦ find_row-uuid u rows {r = r} (ground (arith, e, h))
]

pub order_ids-update_rows :
    (now : ℤ) (o : Order) (rows : List Row) → order_ids (update_rows now o rows) ≡ order_ids rows
unfolding update_rows
order_ids-update_rows now o [] = refl
order_ids-update_rows now o (r ∷ rows) = elim (Bool-cases (o.uuid == r.order.uuid)) [
  | inl e ↦ rw e (ap (λ us. r.order.uuid ∷ us) (order_ids-update_rows now o rows))
  | inr e ↦ rw e (ap (λ us. r.order.uuid ∷ us) (order_ids-update_rows now o rows))
]

update_rows-absent :
    (now : ℤ) (o : Order) (rows : List Row)
    → contains o.uuid (order_ids rows) ≡ false
    → update_rows now o rows ≡ rows
unfolding update_rows
update_rows-absent now o [] h = refl
update_rows-absent now o (r ∷ rows) h = elim (Bool-cases (o.uuid == r.order.uuid)) [
  | inl e ↦ ground (arith, e, h)
  | inr e ↦ rw e (ap (λ rs. r ∷ rs) (update_rows-absent now o rows (ground (arith, h))))
]

module _ (P : Row → Type 0) (now : ℤ) (o : Order) where
  -- An update writes one row: the one that was found under the key.
  pub All-update_rows :
      (rows : List Row) {r : OrderRecord}
      → IsDistinct (order_ids rows)
      → find_row o.uuid rows ≡ some r
      → ((row : Row) → row.order ≡ r → P row → P (set_row now o row))
      → All P rows
      → All P (update_rows now o rows)
  unfolding update_rows
  All-update_rows [] d h keep all = tt
  All-update_rows (row ∷ rows) d h keep all = elim (Bool-cases (o.uuid == row.order.uuid)) [
    | inl e ↦
        let same : o.uuid ≡ row.order.uuid = ground (arith, e) in
        rw (e, update_rows-absent now o rows (rw same (d.0)))
          (keep row (ground (arith, h, e)) (all.0), all.1)
    | inr e ↦ rw e (all.0, All-update_rows rows (d.1) (ground (arith, h, e)) keep (all.1))
  ]

-- What reading an order answers.
module _ (db : Postgres) (u : ℕ) (d : Db) where
  abbrev pub restored : OrderRecord → Order
  restored r = record (order_record_to_model r) {
    items = order_item_records_to_models (db.arrange (items_of u d.items));
  }

  abbrev pub with_items : Option Error → OrderRecord → Result Error Order
  with_items (some e) r = err e
  with_items none r = ok (restored r)

  abbrev pub row_read : Option OrderRecord → Result Error Order
  row_read none = err order_not_found
  row_read (some r) = with_items (db.items_fault u d) r

  abbrev pub read_unless : Option Error → Result Error Order
  read_unless (some e) = err e
  read_unless none = row_read (find_row u d.orders)

  -- Reading an order, for update or not, gives the row of its key with the rows of its items, an
  -- order-not-found error when there is none, or the fault of the first statement that fails, and
  -- never writes.
  pub get_with_items-eq :
      (for_update : Bool) {X : Type 0} (x : X)
      → get_with_items db for_update u (d, x) ≡ (read_unless (db.get_fault u for_update d), (d, x))
  unfolding get_with_items get_order get_order_items
  get_with_items-eq for_update x = elim (Option-cases (db.get_fault u for_update d)) [
    | inr (e, bad) ↦ rw bad refl
    | inl fine ↦ rw fine (elim (Option-cases (find_row u d.orders)) [
      | inl absent ↦ rw absent refl
      | inr (r, there) ↦ rw there (elim (Option-cases (db.items_fault u d)) [
        | inr (e, bad) ↦ rw bad refl
        | inl fine' ↦ rw fine' refl
      ])
    ])
  ]

  row_read-eq-ok :
      (f : Option OrderRecord) {o : Order}
      → row_read f ≡ ok o
      → (r : OrderRecord) × (f ≡ some r) × (o ≡ restored r)
  row_read-eq-ok none h = cc
  row_read-eq-ok (some r) h = elim (Option-cases (db.items_fault u d)) [
    | inl fine ↦ (r, refl, cc (h, fine))
    | inr (e, bad) ↦ cc (h, bad)
  ]

  -- Where an order is read, its row was found.
  pub read-eq-ok :
      (f : Option Error) {o : Order}
      → read_unless f ≡ ok o
      → (r : OrderRecord) × (find_row u d.orders ≡ some r) × (o ≡ restored r)
  read-eq-ok (some e) h = cc
  read-eq-ok none h = row_read-eq-ok (find_row u d.orders) h

module _ (db : Postgres) {X : Type 0} where
  -- An update without error wrote the row of the order.
  pub update-eq-ok :
      (now : ℤ) (o : Order) (d : Db) (x : X) {w' : Db × X}
      → update db now o (d, x) ≡ (ok tt, w')
      → w' ≡ (record d { orders = update_rows (db.timestamp now) o d.orders }, x)
  unfolding update
  update-eq-ok now o d x {w' = w'} h =
      let done =
        Action.after_fault (db.update_fault o d) (update_order db (db.timestamp now) o) (d, x) w'
          h in
      elim (Bool-cases (rows_affected o d.orders == 0)) [
        | inl e ↦ let h' = rw e at done in cc
        | inr e ↦ let h' = rw e at done in cc
      ]

  -- A block that read an order went on with the row of its key, over the same tables.
  pub after_read :
      {B : Type 0} (u : ℕ) (f : Order → Action.Action Error (Db × X) B) (d : Db) (x : X)
      (w' : Db × X) {b : B}
      → Action.◌>>=◌ (get_for_update db u) f (d, x) ≡ (ok b, w')
      → (r : OrderRecord) × (find_row u d.orders ≡ some r)
        × (f (restored db u d r) (d, x) ≡ (ok b, w'))
  unfolding get_for_update
  after_read u f d x w' h =
      let h' = rw (get_with_items-eq db u d true x) at h in
      let (o, got, rest) =
        Action.continue-eq-ok (read_unless db u d (db.get_fault u true d)) f (d, x) w' h' in
      let (r, there, same) = read-eq-ok db u d (db.get_fault u true d) got in
      (r, there, rw same at rest)
