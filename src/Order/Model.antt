-- ===== src/Order/Model.antt =====
-- Orders and parts as the order service sees them (order/internal/model, order/internal/service/input).
use rocket_factory.Prelude.{ℕ, String, Option, none, List, [], ◌∷◌, map}
use rocket_factory.Prelude.Int.{ℤ, pos, add64}

abbrev pub pending_payment : String
pending_payment = "PENDING_PAYMENT"

abbrev pub paid : String
paid = "PAID"

abbrev pub cancelled : String
cancelled = "CANCELLED"

abbrev pub assembled : String
assembled = "ASSEMBLED"

abbrev pub part_type_engine : String
part_type_engine = "ENGINE"

abbrev pub part_type_hull : String
part_type_hull = "HULL"

abbrev pub part_type_shield : String
part_type_shield = "SHIELD"

abbrev pub part_type_weapon : String
part_type_weapon = "WEAPON"

abbrev pub part_type_unspecified : String
part_type_unspecified = "UNSPECIFIED"

abbrev pub method_unspecified : String
method_unspecified = "UNSPECIFIED"

abbrev pub method_card : String
method_card = "CARD"

abbrev pub method_sbp : String
method_sbp = "SBP"

abbrev pub method_credit_card : String
method_credit_card = "CREDIT_CARD"

abbrev pub method_investor_money : String
method_investor_money = "INVESTOR_MONEY"

-- model.Part
pub record Part : Type 0 where
  pub uuid : ℕ
  pub part_type : String
  pub name : String
  pub price : ℤ
  pub stock_quantity : ℤ

-- model.OrderItem
pub record OrderItem : Type 0 where
  pub uuid : ℕ
  pub part_type : String
  pub price : ℤ

-- model.Order
pub record Order : Type 0 where
  pub uuid : ℕ
  pub user_uuid : ℕ
  pub items : List OrderItem
  pub transaction_uuid : Option ℕ
  pub payment_method : Option String
  pub status : String
  pub created_at : ℤ

-- The loop of TotalPrice on int64, with the sum so far.
unfoldable pub total_from : ℤ → List OrderItem → ℤ
unfolding add64
total_from total [] = total
total_from total (item ∷ items) = total_from (add64 total item.price) items

-- (*Order).TotalPrice
unfoldable pub total_price : Order → ℤ
unfolding total_from
total_price o = total_from (pos 0) o.items

-- (*Order).ItemsUUIDs
unfoldable pub items_uuids : Order → List ℕ
items_uuids o = map (λ item. item.uuid) o.items

-- input.OrderParts
pub record OrderParts : Type 0 where
  pub hull_uuid : ℕ
  pub engine_uuid : ℕ
  pub shield_uuid : Option ℕ
  pub weapon_uuid : Option ℕ

-- model.OrderPaidEvent
pub record OrderPaidEvent : Type 0 where
  pub uuid : String
  pub order_uuid : String
  pub user_uuid : String

-- model.ShipAssembledEvent
pub record ShipAssembledEvent : Type 0 where
  pub uuid : String
  pub order_uuid : String
  pub user_uuid : String
  pub build_time_sec : ℤ
  pub assembled_at : ℤ

-- The zero value `model.Order{}`.
abbrev pub zero_order : Order
zero_order = record {
  uuid = 0;
  user_uuid = 0;
  items = [];
  transaction_uuid = none;
  payment_method = none;
  status = "";
  created_at = pos 0;
}
