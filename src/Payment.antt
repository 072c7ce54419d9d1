-- ===== src/Payment.antt =====
-- The payment service (payment/internal): its only operation, its converters and its interceptor.
use rocket_factory.Prelude.{
  ℕ, String, ◌≡◌, refl, Option, none, some, str_eq, if◌then◌else◌, Result, ok, err, panic,
  UuidCodec,
}
use rocket_factory.Prelude.Grpc.{Code, invalid_argument, internal}

-- payment/internal/errors/errors.go
pub data Error : Type 0 where
  payment_method_not_specified invalid_uuid : Error
  status : Code → Error

abbrev pub unspecified : String
unspecified = "unspecified"

abbrev pub card : String
card = "card"

abbrev pub sbp : String
sbp = "sbp"

abbrev pub credit_card : String
credit_card = "credit_card"

abbrev pub investor_money : String
investor_money = "investor_money"

-- The open enum PaymentMethod of the protocol.
pub data PaymentMethodProto : Type 0 where
  proto_unspecified proto_card proto_sbp proto_credit_card proto_investor_money : PaymentMethodProto
  unrecognized : ℕ → PaymentMethodProto

-- PaymentMethodModelToProto
unfoldable pub payment_method_model_to_proto : String → PaymentMethodProto
payment_method_model_to_proto pm =
    if str_eq pm card
    then proto_card
    else if str_eq pm sbp
    then proto_sbp
    else if str_eq pm credit_card
    then proto_credit_card
    else if str_eq pm investor_money
    then proto_investor_money
    else proto_unspecified

-- PaymentMethodProtoToModel
unfoldable pub payment_method_proto_to_model : PaymentMethodProto → String
payment_method_proto_to_model proto_card = card
payment_method_proto_to_model proto_sbp = sbp
payment_method_proto_to_model proto_credit_card = credit_card
payment_method_proto_to_model proto_investor_money = investor_money
payment_method_proto_to_model proto_unspecified = unspecified
payment_method_proto_to_model (unrecognized n) = unspecified

-- PayOrder of the service; `fresh` is what `uuid.New()` gives.
unfoldable pub pay_order : ℕ → ℕ → String → Result Error ℕ
pay_order fresh order_uuid payment_method =
    if str_eq payment_method unspecified then err payment_method_not_specified else ok fresh

abbrev printed : UuidCodec → Result Error ℕ → Result Error String
printed codec (ok u) = ok (codec.to_string u)
printed codec (err e) = err e
printed codec panic = panic

abbrev pay_parsed : UuidCodec → ℕ → Option ℕ → PaymentMethodProto → Result Error String
pay_parsed codec fresh none pm = err invalid_uuid
pay_parsed codec fresh (some order_uuid) pm =
    printed codec (pay_order fresh order_uuid (payment_method_proto_to_model pm))

-- PayOrder of the API: the transaction's identifier, printed.
unfoldable pub handle_pay_order : UuidCodec → ℕ → String → PaymentMethodProto → Result Error String
unfolding pay_order payment_method_proto_to_model
handle_pay_order codec fresh order_uuid pm =
    if str_eq order_uuid ""
    then err invalid_uuid
    else pay_parsed codec fresh (codec.parse order_uuid) pm

-- ErrorInterceptor, on the error of its handler.
unfoldable pub intercept : Error → Error
intercept payment_method_not_specified = status invalid_argument
intercept invalid_uuid = status invalid_argument
intercept (status c) = status internal

-- PaymentMethodProtoToModel undoes PaymentMethodModelToProto on the methods of the model.
payment_method_proto_to_model-payment_method_model_to_proto :
    (payment_method_proto_to_model (payment_method_model_to_proto card) ≡ card)
    × (payment_method_proto_to_model (payment_method_model_to_proto sbp) ≡ sbp)
    × (payment_method_proto_to_model (payment_method_model_to_proto credit_card) ≡ credit_card)
    × (payment_method_proto_to_model (payment_method_model_to_proto investor_money)
        ≡ investor_money)
    × (payment_method_proto_to_model (payment_method_model_to_proto unspecified) ≡ unspecified)
unfolding payment_method_proto_to_model payment_method_model_to_proto
payment_method_proto_to_model-payment_method_model_to_proto = (refl, refl, refl, refl, refl)
