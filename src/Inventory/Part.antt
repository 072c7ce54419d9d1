-- ===== src/Inventory/Part.antt =====
-- The entity of inventory/internal/model/entity/part.go.
pub mod Stock
use rocket_factory.Prelude.{ℕ, String, if◌then◌else◌, Result, ok, err}
use rocket_factory.Prelude.Int.{ℤ, pos, leb_ℤ, add64, sub64}
use rocket_factory.Inventory.Errors.{Error, out_of_stock, nothing_to_release, nothing_to_commit}
use rocket_factory.Inventory.Properties.{PartProperties}

-- `created_at` is the instant in nanoseconds; the service only passes it on.
pub record Part : Type 0 where
  pub uuid : ℕ
  pub name : String
  pub description : String
  pub part_type : String
  pub price : ℤ
  pub stock_quantity : ℤ
  pub reserved : ℤ
  pub properties : PartProperties
  pub created_at : ℤ

-- The methods write only after their last check, so a failed call leaves the part as it was and
-- the result is the changed part or the error.

-- (*Part).Reserve
unfoldable pub reserve : Part → Result Error Part
unfolding add64 sub64
reserve p =
    if leb_ℤ (sub64 p.stock_quantity p.reserved) (pos 0)
    then err out_of_stock
    else ok (record p { reserved = add64 p.reserved (pos 1) })

-- (*Part).Release
unfoldable pub release : Part → Result Error Part
unfolding sub64
release p =
    if leb_ℤ p.reserved (pos 0)
    then err nothing_to_release
    else ok (record p { reserved = sub64 p.reserved (pos 1) })

-- (*Part).Commit
unfoldable pub commit : Part → Result Error Part
unfolding sub64
commit p =
    if leb_ℤ p.reserved (pos 0)
    then err nothing_to_commit
    else if leb_ℤ p.stock_quantity (pos 0)
    then err nothing_to_commit
    else ok (record p {
      reserved = sub64 p.reserved (pos 1);
      stock_quantity = sub64 p.stock_quantity (pos 1);
    })
