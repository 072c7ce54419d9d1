-- ===== src/Order/Clients/Paths.antt =====
-- How an error or an answer of another service reaches the order service
-- (inventory/internal/interceptor/error.go, payment/internal, order/internal/client/grpc).
use rocket_factory.Prelude.{
  ℕ, String, ◌≡◌, ◌≢◌, refl, ap, Option, none, some, str_eq, eq_iff, arith, Bool-cases, false,
  if◌then◌else◌, inl, inr, UuidCodec, Result, ok, err, panic,
}
use rocket_factory.Prelude.Grpc.{Code, CallError, unknown, not_a_status, invalid_argument}
use rocket_factory.Prelude.Grpc
use rocket_factory.Inventory.Errors
use rocket_factory.Inventory.Api
use rocket_factory.Order.Errors.{
  Error, part_not_found, part_type_mismatch, incompatible_parts, out_of_stock, internal_error,
  payment_failed,
}
use rocket_factory.Order.Model.{method_card, method_sbp, method_credit_card, method_investor_money}
use rocket_factory.Order.Clients.{inventory_error, payment_error, map_payment_method, pay_order}
use rocket_factory.Payment
use rocket_factory.Payment.{PaymentMethodProto}

-- `status.Code`, and the rule of the gRPC server for the error of a handler: an error that was
-- built by `status.Error` goes out with its code, any other one as Unknown.
pub record StatusRules : Type 0 where
  pub status_code : Errors.Error → Option Code
  pub of_status : (c : Code) → status_code (Errors.status c) ≡ some c
  pub of_other :
      (e : Errors.Error) → ((c : Code) → e ≢ Errors.status c) → status_code e ≡ some unknown

-- What a caller sees of the error that an interceptor returns.
abbrev pub sent : Option Code → CallError
sent none = not_a_status
sent (some c) = Grpc.status c

-- The error of the order service for an error of the inventory's handler.
abbrev pub seen_as : Errors.Error → Error
seen_as Errors.part_not_found = part_not_found
seen_as Errors.invalid_uuid = part_type_mismatch
seen_as Errors.part_type_mismatch = part_type_mismatch
seen_as Errors.incompatible_parts = incompatible_parts
seen_as Errors.nothing_to_commit = incompatible_parts
seen_as Errors.nothing_to_release = incompatible_parts
seen_as Errors.out_of_stock = out_of_stock
seen_as (Errors.status c) = inventory_error (Grpc.status c)
seen_as e = internal_error

module _ (rules : StatusRules) where
  abbrev pub inventory_path : Errors.Error → Error
  inventory_path e = inventory_error (sent (rules.status_code (Api.intercept rules.status_code e)))

  -- By the rules of gRPC for statuses, an error of the inventory's handlers, through its
  -- interceptor, the wire and the client's mapErrors, is the error that `seen_as` lists.
  pub inventory_path-eq : (e : Errors.Error) → inventory_path e ≡ seen_as e
  unfolding inventory_error Api.intercept
  inventory_path-eq Errors.part_not_found = rw (rules.of_status Grpc.not_found) refl
  inventory_path-eq Errors.invalid_uuid = rw (rules.of_status Grpc.invalid_argument) refl
  inventory_path-eq Errors.part_type_mismatch = rw (rules.of_status Grpc.invalid_argument) refl
  inventory_path-eq Errors.incompatible_parts = rw (rules.of_status Grpc.failed_precondition) refl
  inventory_path-eq Errors.nothing_to_commit = rw (rules.of_status Grpc.failed_precondition) refl
  inventory_path-eq Errors.nothing_to_release = rw (rules.of_status Grpc.failed_precondition) refl
  inventory_path-eq Errors.out_of_stock = rw (rules.of_status Grpc.resource_exhausted) refl
  inventory_path-eq Errors.invalid_properties = rw (rules.of_status Grpc.internal) refl
  inventory_path-eq Errors.no_part_were_updated =
      rw
        (
          rules.of_other Errors.no_part_were_updated (λ c same. cc),
          rules.of_other Errors.no_part_were_updated (λ c same. cc),
        )
        refl
  inventory_path-eq Errors.internal_error =
      rw
        (
          rules.of_other Errors.internal_error (λ c same. cc),
          rules.of_other Errors.internal_error (λ c same. cc),
        )
        refl
  inventory_path-eq Errors.unauthenticated =
      rw
        (
          rules.of_other Errors.unauthenticated (λ c same. cc),
          rules.of_other Errors.unauthenticated (λ c same. cc),
        )
        refl
  inventory_path-eq Errors.other =
      rw (rules.of_other Errors.other (λ c same. cc), rules.of_other Errors.other (λ c same. cc))
        refl
  inventory_path-eq (Errors.status c) = rw (rules.of_status c, rules.of_status c) refl

-- What the two services name a method of payment.
abbrev pub payable : String → Option String
payable m =
    if str_eq m method_card
    then some Payment.card
    else if str_eq m method_sbp
    then some Payment.sbp
    else if str_eq m method_credit_card
    then some Payment.credit_card
    else if str_eq m method_investor_money
    then some Payment.investor_money
    else none

-- The error of a handler on the wire; the interceptor leaves only statuses.
abbrev on_the_wire : Payment.Error → CallError
on_the_wire (Payment.status c) = Grpc.status c
on_the_wire Payment.payment_method_not_specified = Grpc.status unknown
on_the_wire Payment.invalid_uuid = Grpc.status unknown

module _ (codec : UuidCodec) (fresh : ℕ) where
  abbrev reply : {X : Type 0} → Result Payment.Error String → X → Result CallError String × X
  reply (ok u) x = (ok u, x)
  reply panic x = (panic, x)
  reply (err e) x = (err (on_the_wire (Payment.intercept e)), x)

  -- The payment service behind its interceptor, as the stub of the client.
  abbrev pub payment_stub :
      {X : Type 0} → String → PaymentMethodProto → X → Result CallError String × X
  payment_stub order_uuid pm x = reply (Payment.handle_pay_order codec fresh order_uuid pm) x

  abbrev pub paid_or_refused : Option String → Result Error ℕ
  paid_or_refused none = err payment_failed
  paid_or_refused (some m) = ok fresh

  not_blank : (u : ℕ) → str_eq (codec.to_string u) "" ≡ false
  not_blank u = elim (Bool-cases (str_eq (codec.to_string u) "")) [
    | inr e ↦ e
    | inl e ↦
        let blank : codec.to_string u ≡ "" = ground (arith, e, eq_iff (codec.to_string u) "") in
        cc (codec.parse-to_string u, codec.parse_empty, ap codec.parse blank)
  ]

  -- A payment by the order service's client, through the payment service and back, gives the
  -- transaction that the payment service made when the method is one of the four that both know, and
  -- a payment-failed error for every other method.
  pub pay_order-payment_stub :
      (u : ℕ) (m : String) {X : Type 0} (x : X)
      → pay_order codec payment_stub u m x ≡ (paid_or_refused (payable m), x)
  unfolding pay_order map_payment_method payment_error Payment.handle_pay_order Payment.pay_order
      Payment.payment_method_proto_to_model Payment.intercept
  pay_order-payment_stub u m x = elim (Bool-cases (str_eq m method_card)) [
    | inl e ↦ rw (e, not_blank u, codec.parse-to_string u, codec.parse-to_string fresh) refl
    | inr e1 ↦ elim (Bool-cases (str_eq m method_sbp)) [
      | inl e ↦ rw (e1, e, not_blank u, codec.parse-to_string u, codec.parse-to_string fresh) refl
      | inr e2 ↦ elim (Bool-cases (str_eq m method_credit_card)) [
        | inl e ↦
            rw (e1, e2, e, not_blank u, codec.parse-to_string u, codec.parse-to_string fresh) refl
        | inr e3 ↦ elim (Bool-cases (str_eq m method_investor_money)) [
          | inl e ↦
              rw (e1, e2, e3, e, not_blank u, codec.parse-to_string u, codec.parse-to_string fresh)
                refl
          | inr e4 ↦ rw (e1, e2, e3, e4, not_blank u, codec.parse-to_string u) refl
        ]
      ]
    ]
  ]
