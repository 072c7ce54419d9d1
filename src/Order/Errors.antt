-- ===== src/Order/Errors.antt =====
-- The error sentinels of order/internal/errors/errors.go.

-- `other` is an error with no sentinel at the end of its chain (database, protobuf, broker), and
-- `bad_request` one of ogen's errors on decoding the parameters or the body of a request.
pub data Error : Type 0 where
  invalid_uuid payment_failed invalid_payment_method invalid_order_status : Error
  order_not_found internal_error part_not_found out_of_stock incompatible_parts : Error
  part_type_mismatch unauthorized bad_request other : Error
