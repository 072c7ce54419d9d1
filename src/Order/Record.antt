-- ===== src/Order/Record.antt =====
-- The rows of the two tables and their converters (order/internal/repository/record,
-- order/internal/repository/converter/order.go).
use rocket_factory.Prelude.{ℕ, String, ◌≡◌, refl, ap, Option, List, [], ◌∷◌}
use rocket_factory.Prelude.Int.{ℤ}
use rocket_factory.Order.Model.{Order, OrderItem}

-- record.Order
pub record OrderRecord : Type 0 where
  pub uuid : ℕ
  pub user_uuid : ℕ
  pub status : String
  pub transaction_uuid : Option ℕ
  pub payment_method : Option String
  pub created_at : ℤ

-- record.OrderItem
pub record OrderItemRecord : Type 0 where
  pub order_uuid : ℕ
  pub part_uuid : ℕ
  pub part_type : String
  pub price : ℤ

-- OrderModelToRecord
abbrev pub order_model_to_record : Order → OrderRecord
order_model_to_record m = record {
  uuid = m.uuid;
  user_uuid = m.user_uuid;
  transaction_uuid = m.transaction_uuid;
  payment_method = m.payment_method;
  status = m.status;
  created_at = m.created_at;
}

-- OrderRecordToModel
abbrev pub order_record_to_model : OrderRecord → Order
order_record_to_model r = record {
  uuid = r.uuid;
  user_uuid = r.user_uuid;
  items = [];
  transaction_uuid = r.transaction_uuid;
  payment_method = r.payment_method;
  status = r.status;
  created_at = r.created_at;
}

-- OrderItemModelToRecord
abbrev pub order_item_model_to_record : ℕ → OrderItem → OrderItemRecord
order_item_model_to_record order_uuid item = record {
  order_uuid = order_uuid;
  part_uuid = item.uuid;
  part_type = item.part_type;
  price = item.price;
}

-- OrderItemRecordToModel
abbrev pub order_item_record_to_model : OrderItemRecord → OrderItem
order_item_record_to_model r = record {
  uuid = r.part_uuid;
  part_type = r.part_type;
  price = r.price;
}

-- OrderItemModelsToRecords
unfoldable pub order_item_models_to_records : ℕ → List OrderItem → List OrderItemRecord
order_item_models_to_records order_uuid [] = []
order_item_models_to_records order_uuid (item ∷ items) =
    order_item_model_to_record order_uuid item ∷ order_item_models_to_records order_uuid items

-- OrderItemRecordsToModels
unfoldable pub order_item_records_to_models : List OrderItemRecord → List OrderItem
order_item_records_to_models [] = []
order_item_records_to_models (r ∷ rs) =
    order_item_record_to_model r ∷ order_item_records_to_models rs

order_item_records_to_models-order_item_models_to_records :
    (order_uuid : ℕ) (items : List OrderItem)
    → order_item_records_to_models (order_item_models_to_records order_uuid items) ≡ items
unfolding order_item_records_to_models order_item_models_to_records
order_item_records_to_models-order_item_models_to_records order_uuid [] = refl
order_item_records_to_models-order_item_models_to_records order_uuid (item ∷ items) =
    ap (λ rest. item ∷ rest)
      (order_item_records_to_models-order_item_models_to_records order_uuid items)

-- An order comes back from the rows of its two tables as it went in.
pub order_record_to_model-order_model_to_record :
    (o : Order)
    → record (order_record_to_model (order_model_to_record o)) {
      items = order_item_records_to_models (order_item_models_to_records o.uuid o.items);
    }
      ≡ o
order_record_to_model-order_model_to_record o =
    ap (λ items. record o { items = items })
      (order_item_records_to_models-order_item_models_to_records o.uuid o.items)
