-- ===== src/Inventory/Api.antt =====
-- The gRPC handlers of the inventory (inventory/internal/api) and its error interceptor
-- (inventory/internal/interceptor/error.go).
pub mod Wire
pub mod Reads
use rocket_factory.Prelude.{
  ℕ, String, Bool, Option, none, some, List, [], ◌∷◌, map, str_eq, not, if◌then◌else◌, Result, ok,
  err, panic, map_result, UuidCodec, TxManager, ◌>>=◌, nil_uuid,
}
use rocket_factory.Prelude.Int.{ℤ}
use rocket_factory.Prelude.Grpc.{
  Code, not_found, invalid_argument, failed_precondition, resource_exhausted, internal,
}
use rocket_factory.Prelude.Action
use rocket_factory.Prelude.Action.{Action, lift, pure}
use rocket_factory.Inventory.Errors.{
  Error, part_not_found, invalid_uuid, out_of_stock, nothing_to_release, nothing_to_commit,
  incompatible_parts, part_type_mismatch, invalid_properties, status,
}
use rocket_factory.Inventory.Properties.{
  part_type_hull, part_type_engine, part_type_shield, part_type_weapon, part_type_unspecified,
}
use rocket_factory.Inventory.Part.{Part}
use rocket_factory.Inventory.Record.{PartPropertiesRecord}
use rocket_factory.Inventory.Repository.{Table, Postgres}
use rocket_factory.Inventory.Service
use rocket_factory.Inventory.Compatibility.{ShipSlots}
use rocket_factory.Inventory.Compatibility.Resolve.{validate_compatibility}

-- The enum PartType of the protocol, which is open: `unrecognized` is any other number.
pub data PartTypeProto : Type 0 where
  proto_unspecified proto_hull proto_engine proto_shield proto_weapon : PartTypeProto
  unrecognized : ℕ → PartTypeProto

-- The message Part.
pub record PartProto : Type 0 where
  pub uuid : String
  pub name : String
  pub description : String
  pub price : ℤ
  pub part_type : PartTypeProto
  pub stock_quantity : ℤ
  pub created_at : ℤ

-- PartTypeModelToProto
unfoldable pub part_type_model_to_proto : String → PartTypeProto
part_type_model_to_proto pt =
    if str_eq pt part_type_hull
    then proto_hull
    else if str_eq pt part_type_engine
    then proto_engine
    else if str_eq pt part_type_shield
    then proto_shield
    else if str_eq pt part_type_weapon
    then proto_weapon
    else proto_unspecified

-- PartTypeProtoToModel
unfoldable pub part_type_proto_to_model : PartTypeProto → String
part_type_proto_to_model proto_hull = part_type_hull
part_type_proto_to_model proto_engine = part_type_engine
part_type_proto_to_model proto_shield = part_type_shield
part_type_proto_to_model proto_weapon = part_type_weapon
part_type_proto_to_model proto_unspecified = part_type_unspecified
part_type_proto_to_model (unrecognized n) = part_type_unspecified

-- ValidateCompatibilityRequest
pub record ValidateRequest : Type 0 where
  pub hull_uuid : String
  pub engine_uuid : String
  pub shield_uuid : String
  pub weapon_uuid : String

module _ (codec : UuidCodec) where
  -- PartModelToPartProto
  unfoldable pub part_model_to_part_proto : Part → PartProto
  unfolding part_type_model_to_proto
  part_model_to_part_proto p = record {
    uuid = codec.to_string p.uuid;
    name = p.name;
    description = p.description;
    price = p.price;
    part_type = part_type_model_to_proto p.part_type;
    stock_quantity = p.stock_quantity;
    created_at = p.created_at;
  }

  abbrev parsed : Option ℕ → Result Error ℕ
  parsed none = err invalid_uuid
  parsed (some u) = ok u

  -- parseUUID
  unfoldable pub parse_uuid : String → Result Error ℕ
  parse_uuid raw = parsed (codec.parse raw)

  abbrev pub parse_optional : String → Result Error ℕ
  parse_optional raw = if not (str_eq raw "") then parse_uuid raw else ok nil_uuid

  -- composeShipSlots
  unfoldable pub compose_ship_slots : ValidateRequest → Result Error ShipSlots
  unfolding parse_uuid
  compose_ship_slots req = do
    hull ← parse_uuid req.hull_uuid
    engine ← parse_uuid req.engine_uuid
    shield ← parse_optional req.shield_uuid
    weapon ← parse_optional req.weapon_uuid
    ok (record {
      hull_uuid = hull;
      engine_uuid = engine;
      shield_uuid = shield;
      weapon_uuid = weapon;
    })

  -- The loop over the identifiers of a request, up to the first that does not parse.
  unfoldable pub parse_uuids : List String → Result Error (List ℕ)
  unfolding parse_uuid
  parse_uuids = map_result parse_uuid

  module _ (unmarshal : String → Option PartPropertiesRecord) (db : Postgres) {X : Type 0}
      (tx : TxManager Error Table X) where
    -- GetPart
    unfoldable pub get_part : String → Action Error (Table × X) PartProto
    unfolding part_model_to_part_proto parse_uuid
    get_part raw =
        if str_eq raw ""
        then Action.raise invalid_uuid
        else (Action.◌>>=◌ (lift (parse_uuid raw)) λ uuid.
            Action.◌>>=◌ (Service.get unmarshal db tx uuid) λ p. pure (part_model_to_part_proto p))

    -- ListParts
    unfoldable pub list_parts :
        List String → PartTypeProto → Action Error (Table × X) (List PartProto)
    unfolding part_type_proto_to_model parse_uuids part_model_to_part_proto
    list_parts uuids part_type = Action.◌>>=◌ (lift (parse_uuids uuids)) λ ids.
        Action.◌>>=◌ (Service.list unmarshal db tx ids (part_type_proto_to_model part_type))
          λ parts. pure (map part_model_to_part_proto parts)

    -- ReserveParts
    unfoldable pub reserve_parts : List String → Action Error (Table × X) (Unit {0})
    unfolding parse_uuids
    reserve_parts uuids = Action.◌>>=◌ (lift (parse_uuids uuids)) (Service.reserve unmarshal db tx)

    -- ReleaseParts
    unfoldable pub release_parts : List String → Action Error (Table × X) (Unit {0})
    unfolding parse_uuids
    release_parts uuids = Action.◌>>=◌ (lift (parse_uuids uuids)) (Service.release unmarshal db tx)

    -- CommitParts
    unfoldable pub commit_parts : List String → Action Error (Table × X) (Unit {0})
    unfolding parse_uuids
    commit_parts uuids = Action.◌>>=◌ (lift (parse_uuids uuids)) (Service.commit unmarshal db tx)

    -- ValidateCompatibility
    unfoldable pub validate : ValidateRequest → Action Error (Table × X) (Unit {0})
    unfolding compose_ship_slots
    validate req =
        Action.◌>>=◌ (lift (compose_ship_slots req)) (validate_compatibility unmarshal db)

-- `status.Code`; none is the code OK.
module _ (status_code : Error → Option Code) where
  abbrev unless_ok : Error → Option Code → Error
  unless_ok e (some c) = e
  unless_ok e none = status internal

  -- ErrorInterceptor, on the error of its handler.
  unfoldable pub intercept : Error → Error
  intercept part_not_found = status not_found
  intercept invalid_uuid = status invalid_argument
  intercept part_type_mismatch = status invalid_argument
  intercept incompatible_parts = status failed_precondition
  intercept nothing_to_commit = status failed_precondition
  intercept nothing_to_release = status failed_precondition
  intercept out_of_stock = status resource_exhausted
  intercept invalid_properties = status internal
  intercept e = unless_ok e (status_code e)
