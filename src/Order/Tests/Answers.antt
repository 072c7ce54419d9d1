-- ===== src/Order/Tests/Answers.antt =====
-- The theorems on the converters, the handlers and the clients of the order service at concrete values.
use rocket_factory.Prelude.{◌≡◌, ◌≢◌, refl, Option, some}
use rocket_factory.Prelude.Unary.{unary}
use rocket_factory.Prelude.Grpc.{Code, unknown}
use rocket_factory.Inventory.Errors
use rocket_factory.Order.Errors.{incompatible_parts}
use rocket_factory.Order.Clients.{pay_order}
use rocket_factory.Order.Clients.Paths.{
  StatusRules, inventory_path, inventory_path-eq, payable, payment_stub, paid_or_refused,
  pay_order-payment_stub,
}

abbrev pub code_of : Errors.Error → Option Code
code_of (Errors.status c) = some c
code_of e = some unknown

pub code_of-other :
    (e : Errors.Error) → ((c : Code) → e ≢ Errors.status c) → code_of e ≡ some unknown
code_of-other (Errors.status c) other = absurd (other c refl)
code_of-other e other = refl

abbrev pub rules : StatusRules
rules = record { status_code = code_of; of_status = λ c. refl; of_other = code_of-other }

inventory_path-eq_example : inventory_path rules Errors.nothing_to_release ≡ incompatible_parts
inventory_path-eq_example = inventory_path-eq rules Errors.nothing_to_release

pay_order-payment_stub_example :
    pay_order unary (payment_stub unary 99) 7 "SBP" tt
    ≡ (paid_or_refused unary 99 (payable "SBP"), tt)
pay_order-payment_stub_example = pay_order-payment_stub unary 99 7 "SBP" tt
