-- ===== src/Inventory/Errors.antt =====
-- The error sentinels of inventory/internal/errors/errors.go.
use rocket_factory.Prelude.Grpc.{Code}

-- `other` is an error with no sentinel at the end of its chain (database, JSON), and `status` one
-- that was built by `status.Error`.
pub data Error : Type 0 where
  part_not_found invalid_uuid out_of_stock nothing_to_release nothing_to_commit : Error
  no_part_were_updated incompatible_parts part_type_mismatch invalid_properties : Error
  internal_error unauthenticated other : Error
  status : Code → Error
