-- ===== src/Order/System/Counters.antt =====
-- The counters of one row of the inventory against the items of the orders, when a unit is reserved,
-- released or taken (inventory/internal/service/application/part).
use rocket_factory.Prelude.{ℕ, ◌+◌, ◌≡◌, ◌∙◌, arith}
use rocket_factory.Prelude.Int.{ℤ, pos, ◌+ℤ◌, ◌-ℤ◌, ◌<ℤ◌, +ℤ_parts, -ℤ_parts}
use rocket_factory.Inventory.Record.{PartRecord}
use rocket_factory.Inventory.Service.Rows.{IsStockedRow}
use rocket_factory.Order.Repository.{Db}
use rocket_factory.Order.System.Accounts.{is_open, is_assembled, units_of, Counted}

-- A row with a free unit, or with a reserved one, is stocked after the call.
pub reserved-IsStockedRow :
    (r : PartRecord)
    → IsStockedRow r
    → r.reserved <ℤ r.stock_quantity
    → IsStockedRow (record r { reserved = r.reserved +ℤ pos 1 })
reserved-IsStockedRow r s free = ground (arith, +ℤ_parts r.reserved (pos 1))

pub released-IsStockedRow :
    (r : PartRecord)
    → IsStockedRow r
    → pos 0 <ℤ r.reserved
    → IsStockedRow (record r { reserved = r.reserved -ℤ pos 1 })
released-IsStockedRow r s had = ground (arith, -ℤ_parts r.reserved (pos 1))

pub taken-IsStockedRow :
    (r : PartRecord)
    → IsStockedRow r
    → pos 0 <ℤ r.reserved
    → IsStockedRow
        (record r { reserved = r.reserved -ℤ pos 1; stock_quantity = r.stock_quantity -ℤ pos 1 })
unfolding ◌-ℤ◌
taken-IsStockedRow r s had = ground arith

shifted : (a : ℤ) (n : ℕ) → a -ℤ pos 1 +ℤ pos (n + 1) ≡ a +ℤ pos n
unfolding ◌+ℤ◌ ◌-ℤ◌
shifted a n = ground arith

module _ (supply : ℕ → ℤ) where
  -- One more reserved unit, for an order that is placed.
  pub reserved-Counted :
      (d d' : Db) (r : PartRecord)
      → units_of is_open r.uuid d' ≡ units_of is_open r.uuid d + 1
      → units_of is_assembled r.uuid d' ≡ units_of is_assembled r.uuid d
      → Counted supply d r
      → Counted supply d' (record r { reserved = r.reserved +ℤ pos 1 })
  unfolding ◌+ℤ◌
  reserved-Counted d d' r more same (reserved, stock) =
      (rw (reserved, more) (ground arith), rw same stock)

  pub same-Counted :
      (d d' : Db) (r : PartRecord)
      → units_of is_open r.uuid d' ≡ units_of is_open r.uuid d
      → units_of is_assembled r.uuid d' ≡ units_of is_assembled r.uuid d
      → Counted supply d r
      → Counted supply d' r
  same-Counted d d' r opened_units done_units (reserved, stock) =
      (rw opened_units reserved, rw done_units stock)

  pub released-Counted :
      (d d' : Db) (r : PartRecord)
      → units_of is_open r.uuid d' + 1 ≡ units_of is_open r.uuid d
      → units_of is_assembled r.uuid d' ≡ units_of is_assembled r.uuid d
      → Counted supply d r
      → Counted supply d' (record r { reserved = r.reserved -ℤ pos 1 })
  unfolding ◌-ℤ◌
  released-Counted d d' r less same (reserved, stock) =
      (rw (reserved, ← less) (ground arith), rw same stock)

  pub taken-Counted :
      (d d' : Db) (r : PartRecord)
      → units_of is_open r.uuid d' + 1 ≡ units_of is_open r.uuid d
      → units_of is_assembled r.uuid d' ≡ units_of is_assembled r.uuid d + 1
      → Counted supply d r
      → Counted supply d'
          (record r { reserved = r.reserved -ℤ pos 1; stock_quantity = r.stock_quantity -ℤ pos 1 })
  unfolding ◌-ℤ◌
  taken-Counted d d' r less more (reserved, stock) =
      (rw (reserved, ← less) (ground arith), rw more (shifted r.stock_quantity _ ∙ stock))
