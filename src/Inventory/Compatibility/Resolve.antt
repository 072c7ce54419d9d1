-- ===== src/Inventory/Compatibility/Resolve.antt =====
-- resolveShipSlots and ValidateCompatibility
-- (inventory/internal/service/application/part/validate_compatibility.go).
use rocket_factory.Prelude.{String, Option, []}
use rocket_factory.Prelude.Action.{Action, lift, ◌>>=◌, ◌>>◌}
use rocket_factory.Inventory.Errors.{Error}
use rocket_factory.Inventory.Record.{PartPropertiesRecord}
use rocket_factory.Inventory.Repository.{Table, Postgres, list}
use rocket_factory.Inventory.Compatibility.{
  ShipSlots, ResolvedShipSlots, requests_of, collect_uuids, validate_duplicate_uuids, by_uuid_from,
  fill_slots, zero_slots, check,
}

module _ (unmarshal : String → Option PartPropertiesRecord) (db : Postgres) {X : Type 0} where
  -- resolveShipSlots; the part type of the filter is the zero value.
  unfoldable pub resolve_ship_slots : ShipSlots → Action Error (Table × X) ResolvedShipSlots
  resolve_ship_slots slots = do
    uuids ← lift (collect_uuids (requests_of slots))
    lift (validate_duplicate_uuids (requests_of slots))
    parts ← list unmarshal db (record { uuids = uuids; part_type = "" })
    lift (fill_slots (by_uuid_from parts []) (requests_of slots) zero_slots)

  -- ValidateCompatibility
  unfoldable pub validate_compatibility : ShipSlots → Action Error (Table × X) (Unit {0})
  validate_compatibility slots = do resolved ← resolve_ship_slots slots; lift (check resolved)
