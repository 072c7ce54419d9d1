-- ===== src/Order/Api.antt =====
-- The HTTP handlers of the order service (order/internal/api/order): converters, the DTO of an order,
-- and the mapping of errors to HTTP statuses. The OpenAPI enums are strings.
pub mod Answers
use rocket_factory.Prelude.{
  ℕ, String, ◌≡◌, refl, ◌==◌, Bool, true, Option, none, some, List, [], ◌∷◌, str_eq, if◌then◌else◌,
  Result, ok, err, panic, TxManager, UuidCodec,
}
use rocket_factory.Prelude.Int.{ℤ}
use rocket_factory.Prelude.Action
use rocket_factory.Prelude.Action.{Action, pure}
use rocket_factory.Order.Errors.{
  Error, bad_request, order_not_found, part_not_found, unauthorized, invalid_order_status,
  incompatible_parts, out_of_stock, invalid_uuid, payment_failed, part_type_mismatch,
  invalid_payment_method, internal_error, other,
}
use rocket_factory.Order.Model.{
  Order, OrderItem, OrderParts, total_price, pending_payment, paid, cancelled, assembled,
  part_type_hull, part_type_engine, part_type_shield, part_type_weapon, method_card, method_sbp,
  method_credit_card, method_investor_money, method_unspecified,
}
use rocket_factory.Order.Repository.{Db, Postgres}
use rocket_factory.Order.Service
use rocket_factory.Order.Service.{Externals, Captured}

abbrev one_of_the_methods : String → Option String
one_of_the_methods m =
    if str_eq m method_card
    then some "CARD"
    else if str_eq m method_sbp
    then some "SBP"
    else if str_eq m method_credit_card
    then some "CREDIT_CARD"
    else if str_eq m method_investor_money
    then some "INVESTOR_MONEY"
    else none

-- PaymentMethodFromModelToApi; OptNilPaymentMethodFromPtr only wraps its result.
unfoldable pub payment_method_from_model_to_api : Option String → Option String
payment_method_from_model_to_api none = none
payment_method_from_model_to_api (some m) = one_of_the_methods m

-- PaymentMethodFromApiToModel
unfoldable pub payment_method_from_api_to_model : String → String
payment_method_from_api_to_model pm =
    if str_eq pm "CARD"
    then method_card
    else if str_eq pm "SBP"
    then method_sbp
    else if str_eq pm "CREDIT_CARD"
    then method_credit_card
    else if str_eq pm "INVESTOR_MONEY"
    then method_investor_money
    else method_unspecified

-- OrderStatusFromModelToApi
unfoldable pub order_status_from_model_to_api : String → String
order_status_from_model_to_api s =
    if str_eq s pending_payment
    then "PENDING_PAYMENT"
    else if str_eq s paid
    then "PAID"
    else if str_eq s cancelled
    then "CANCELLED"
    else if str_eq s assembled
    then "ASSEMBLED"
    else ""

-- A round of the loop of getOrderItemByType.
abbrev pub add_item : OrderItem → OrderParts → OrderParts
add_item item parts =
    if str_eq item.part_type part_type_hull
    then record parts { hull_uuid = item.uuid }
    else if str_eq item.part_type part_type_engine
    then record parts { engine_uuid = item.uuid }
    else if str_eq item.part_type part_type_shield
    then record parts { shield_uuid = some item.uuid }
    else if str_eq item.part_type part_type_weapon
    then record parts { weapon_uuid = some item.uuid }
    else parts

unfoldable pub add_items : List OrderItem → OrderParts → OrderParts
add_items [] parts = parts
add_items (item ∷ items) parts = add_items items (add_item item parts)

-- getOrderItemByType
unfoldable pub get_order_item_by_type : List OrderItem → OrderParts
unfolding add_items
get_order_item_by_type items =
    add_items items
      (record { hull_uuid = 0; engine_uuid = 0; shield_uuid = none; weapon_uuid = none })

-- OrderDto
pub record OrderDto : Type 0 where
  pub user_uuid : ℕ
  pub order_uuid : ℕ
  pub hull_uuid : ℕ
  pub engine_uuid : ℕ
  pub shield_uuid : Option ℕ
  pub weapon_uuid : Option ℕ
  pub total : ℤ
  pub transaction_uuid : Option ℕ
  pub payment_method : Option String
  pub order_status : String
  pub created_at : ℤ

-- The answers of GetOrder.
pub data GetOrderRes : Type 0 where
  found : OrderDto → GetOrderRes
  get_not_found get_failed : GetOrderRes

unfoldable pub order_dto : Order → OrderDto
unfolding get_order_item_by_type payment_method_from_model_to_api order_status_from_model_to_api
    total_price
order_dto o =
    let parts = get_order_item_by_type o.items in
    record {
      user_uuid = o.user_uuid;
      order_uuid = o.uuid;
      hull_uuid = parts.hull_uuid;
      engine_uuid = parts.engine_uuid;
      shield_uuid = parts.shield_uuid;
      weapon_uuid = parts.weapon_uuid;
      total = total_price o;
      transaction_uuid = o.transaction_uuid;
      payment_method = payment_method_from_model_to_api o.payment_method;
      order_status = order_status_from_model_to_api o.status;
      created_at = o.created_at;
    }

abbrev pub get_answer : {W : Type 0} → Result Error Order × W → Result Error GetOrderRes × W
get_answer (ok o, w) = (ok (found (order_dto o)), w)
get_answer (err order_not_found, w) = (ok get_not_found, w)
get_answer (err e, w) = (ok get_failed, w)
get_answer (panic, w) = (panic, w)

module _ (db : Postgres) {X : Type 0} (ext : Externals X) where
  -- GetOrder
  unfoldable pub get_order : ℕ → Action Error (Db × X) GetOrderRes
  unfolding order_dto
  get_order order_uuid w = get_answer (Service.get db ext order_uuid w)

  -- CreateOrder, on the request's four identifiers: the order's identifier and its total price.
  unfoldable pub create_order :
      TxManager Error Db X → Option ℕ → ℕ → ℤ → OrderParts → Action Error (Db × X) (ℕ × ℤ)
  unfolding total_price
  create_order tx user order_uuid now order_parts =
      Action.◌>>=◌ (Service.create db ext tx user order_uuid now order_parts)
        λ order. pure (order.uuid, total_price order)

  -- CancelOrder
  unfoldable pub cancel_order : TxManager Error Db X → ℤ → ℕ → Action Error (Db × X) (Unit {0})
  cancel_order tx now order_uuid = Service.cancel db ext tx now order_uuid

  -- PayOrder
  unfoldable pub pay_order :
      UuidCodec → TxManager Error Db (Captured × X) → ℤ → ℕ → String → Action Error (Db × X) ℕ
  unfolding payment_method_from_api_to_model
  pay_order codec tx now order_uuid pm =
      Service.pay db ext codec tx now order_uuid (payment_method_from_api_to_model pm)

-- The status of mapError.
unfoldable pub map_error : Error → ℕ
map_error bad_request = 400
map_error order_not_found = 404
map_error part_not_found = 404
map_error unauthorized = 401
map_error invalid_order_status = 409
map_error incompatible_parts = 409
map_error out_of_stock = 409
map_error invalid_uuid = 400
map_error payment_failed = 400
map_error part_type_mismatch = 400
map_error invalid_payment_method = 400
map_error internal_error = 500
map_error other = 500

-- errorResponse
pub record ErrorResponse : Type 0 where
  pub code : ℕ
  pub message : String

-- A response, as ErrorHandler writes it; there is no body where its encoding failed.
pub record Response : Type 0 where
  pub content_type : String
  pub status : ℕ
  pub body : Option ErrorResponse

-- `text` is the text of an error.
module _ (text : Error → String) where
  -- The message of mapError.
  unfoldable pub error_message : Error → String
  error_message internal_error = "internal error"
  error_message other = "internal error"
  error_message e = text e

  -- ErrorHandler, where the encoder may fail.
  unfoldable pub error_handler : Bool → Error → Response
  unfolding map_error error_message
  error_handler encodes e = record {
    content_type = "application/json";
    status = map_error e;
    body =
        if encodes then some (record { code = map_error e; message = error_message e }) else none;
  }

  -- A response of the error handler has the status of its error in the body too, and it shows the text
  -- of the error exactly where that status is not 500.
  pub error_handler-message :
      (e : Error)
      → (error_handler true e).body
        ≡ some (record {
          code = (error_handler true e).status;
          message = if (error_handler true e).status == 500 then "internal error" else text e;
        })
  unfolding error_handler map_error error_message
  error_handler-message bad_request = refl
  error_handler-message order_not_found = refl
  error_handler-message part_not_found = refl
  error_handler-message unauthorized = refl
  error_handler-message invalid_order_status = refl
  error_handler-message incompatible_parts = refl
  error_handler-message out_of_stock = refl
  error_handler-message invalid_uuid = refl
  error_handler-message payment_failed = refl
  error_handler-message part_type_mismatch = refl
  error_handler-message invalid_payment_method = refl
  error_handler-message internal_error = refl
  error_handler-message other = refl
