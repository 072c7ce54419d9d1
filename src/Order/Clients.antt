-- ===== src/Order/Clients.antt =====
-- The gRPC clients of the order service (order/internal/client/grpc).
pub mod Paths
use rocket_factory.Prelude.{
  ℕ, String, Option, none, some, List, [], ◌∷◌, map, str_eq, if◌then◌else◌, Result, ok, err, panic,
  UuidCodec, map_result,
}
use rocket_factory.Prelude.Int.{ℤ}
use rocket_factory.Prelude.Action
use rocket_factory.Prelude.Action.{Action, lift}
use rocket_factory.Prelude.Grpc.{
  Code, CallError, status, not_a_status, invalid_argument, not_found, failed_precondition,
  resource_exhausted, unauthenticated,
}
use rocket_factory.Order.Errors.{
  Error, part_not_found, part_type_mismatch, incompatible_parts, out_of_stock, internal_error,
  payment_failed, unauthorized, invalid_uuid,
}
use rocket_factory.Order.Model.{
  Part, OrderParts, part_type_engine, part_type_hull, part_type_shield, part_type_weapon,
  part_type_unspecified, method_card, method_sbp, method_credit_card, method_investor_money,
}
use rocket_factory.Order.Service.{InventoryClient}
use rocket_factory.Inventory.Api.{
  PartTypeProto, proto_hull, proto_engine, proto_shield, proto_weapon, PartProto, ValidateRequest,
}
use rocket_factory.Payment.{PaymentMethodProto}
use rocket_factory.Payment

-- mapErrors of the inventory client.
unfoldable pub inventory_error : CallError → Error
inventory_error (status not_found) = part_not_found
inventory_error (status invalid_argument) = part_type_mismatch
inventory_error (status failed_precondition) = incompatible_parts
inventory_error (status resource_exhausted) = out_of_stock
inventory_error (status c) = internal_error
inventory_error not_a_status = internal_error

-- mapErrors of the payment client.
unfoldable pub payment_error : CallError → Error
payment_error (status invalid_argument) = payment_failed
payment_error (status c) = internal_error
payment_error not_a_status = internal_error

-- mapErrors of the IAM client.
unfoldable pub iam_error : CallError → Error
iam_error (status unauthenticated) = unauthorized
iam_error (status invalid_argument) = unauthorized
iam_error (status c) = internal_error
iam_error not_a_status = internal_error

-- PartTypeFromProto
unfoldable pub part_type_from_proto : PartTypeProto → String
part_type_from_proto proto_hull = part_type_hull
part_type_from_proto proto_engine = part_type_engine
part_type_from_proto proto_shield = part_type_shield
part_type_from_proto proto_weapon = part_type_weapon
part_type_from_proto t = part_type_unspecified

-- PartFromProto
unfoldable pub part_from_proto : PartProto → ℕ → Part
unfolding part_type_from_proto
part_from_proto p part_uuid = record {
  uuid = part_uuid;
  part_type = part_type_from_proto p.part_type;
  name = p.name;
  price = p.price;
  stock_quantity = p.stock_quantity;
}

-- MapPaymentMethod
unfoldable pub map_payment_method : String → PaymentMethodProto
map_payment_method pm =
    if str_eq pm method_card
    then Payment.proto_card
    else if str_eq pm method_sbp
    then Payment.proto_sbp
    else if str_eq pm method_credit_card
    then Payment.proto_credit_card
    else if str_eq pm method_investor_money
    then Payment.proto_investor_money
    else Payment.proto_unspecified

-- The answer of a call, with the client's own error for the error of the call.
abbrev pub with_error : {E F W A : Type 0} → (E → F) → Result E A × W → Result F A × W
with_error f (ok a, w) = (ok a, w)
with_error f (err e, w) = (err (f e), w)
with_error f (panic, w) = (panic, w)

-- The generated stub of the inventory service.
pub record InventoryStub (X : Type 0) : Type 0 where
  pub list_parts : List String → Action CallError X (List PartProto)
  pub reserve_parts : List String → Action CallError X (Unit {0})
  pub release_parts : List String → Action CallError X (Unit {0})
  pub commit_parts : List String → Action CallError X (Unit {0})
  pub validate_compatibility : ValidateRequest → Action CallError X (Unit {0})

module _ (codec : UuidCodec) where
  -- UuidsToStrings
  unfoldable pub uuids_to_strings : List ℕ → List String
  uuids_to_strings [] = []
  uuids_to_strings (u ∷ us) = codec.to_string u ∷ uuids_to_strings us

  -- UUIDPtrToString
  unfoldable pub uuid_ptr_to_string : Option ℕ → String
  uuid_ptr_to_string none = ""
  uuid_ptr_to_string (some id) = codec.to_string id

  -- A round of the loop over the answered parts. An identifier that does not parse is no status.
  abbrev pub restore_part : PartProto → Option ℕ → Result Error Part
  restore_part p none = err (inventory_error not_a_status)
  restore_part p (some u) = ok (part_from_proto p u)

  module _ {X : Type 0} (stub : InventoryStub X) where
    -- ListParts, ReserveParts, ReleaseParts, CommitParts and ValidateCompatibility of the client.
    unfoldable pub list_parts : List ℕ → Action Error X (List Part)
    unfolding uuids_to_strings inventory_error part_from_proto
    list_parts uuids =
        Action.◌>>=◌ (λ x. with_error inventory_error (stub.list_parts (uuids_to_strings uuids) x))
          λ parts. lift (map_result (λ p. restore_part p (codec.parse p.uuid)) parts)

    unfoldable pub reserve_parts : List ℕ → Action Error X (Unit {0})
    unfolding uuids_to_strings inventory_error
    reserve_parts uuids x =
        with_error inventory_error (stub.reserve_parts (uuids_to_strings uuids) x)

    unfoldable pub release_parts : List ℕ → Action Error X (Unit {0})
    unfolding uuids_to_strings inventory_error
    release_parts uuids x =
        with_error inventory_error (stub.release_parts (uuids_to_strings uuids) x)

    unfoldable pub commit_parts : List ℕ → Action Error X (Unit {0})
    unfolding uuids_to_strings inventory_error
    commit_parts uuids x = with_error inventory_error (stub.commit_parts (uuids_to_strings uuids) x)

    unfoldable pub validate_compatibility : OrderParts → Action Error X (Unit {0})
    unfolding uuid_ptr_to_string inventory_error
    validate_compatibility p x = with_error inventory_error (
        stub.validate_compatibility
          (record {
            hull_uuid = codec.to_string p.hull_uuid;
            engine_uuid = codec.to_string p.engine_uuid;
            shield_uuid = uuid_ptr_to_string p.shield_uuid;
            weapon_uuid = uuid_ptr_to_string p.weapon_uuid;
          })
          x)

    -- The client as the service uses it.
    abbrev pub inventory_client : InventoryClient X
    inventory_client = record {
      list_parts = list_parts;
      reserve_parts = reserve_parts;
      release_parts = release_parts;
      commit_parts = commit_parts;
      validate_compatibility = validate_compatibility;
    }

  abbrev transaction_of : Option ℕ → Result Error ℕ
  transaction_of none = err invalid_uuid
  transaction_of (some u) = ok u

  -- PayOrder of the payment client.
  unfoldable pub pay_order :
      {X : Type 0}
      → (String → PaymentMethodProto → Action CallError X String)
      → ℕ
      → String
      → Action Error X ℕ
  unfolding payment_error map_payment_method
  pay_order stub order_uuid payment_method =
      Action.◌>>=◌
        (λ x.
          with_error payment_error
            (stub (codec.to_string order_uuid) (map_payment_method payment_method) x))
        λ tx_uuid. lift (transaction_of (codec.parse tx_uuid))

  abbrev must_parse : Option ℕ → Option ℕ → Result Error (ℕ × ℕ)
  must_parse none s = panic
  must_parse (some u) none = panic
  must_parse (some u) (some s) = ok (u, s)

  -- Whoami of the IAM client; the stub answers with the user's and the session's identifiers, which
  -- `uuid.MustParse` reads or panics on.
  unfoldable pub whoami :
      {X : Type 0} → (String → Action CallError X (String × String)) → ℕ → Action Error X (ℕ × ℕ)
  unfolding iam_error
  whoami stub session_uuid =
      Action.◌>>=◌ (λ x. with_error iam_error (stub (codec.to_string session_uuid) x))
        λ answer. lift (must_parse (codec.parse answer.0) (codec.parse answer.1))
