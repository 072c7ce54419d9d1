-- ===== src/Order/System/Listing.antt =====
-- The parts that the inventory lists to the order service: one for each identifier that was asked
-- for, in that order (order/internal/client/grpc/inventory, inventory/internal/api/inventory/v1).
use rocket_factory.Prelude.{
  ℕ, String, ◌≡◌, refl, sym, ◌∙◌, ap, ap₂, false, Option, none, some, List, [], ◌∷◌, map,
  IsDistinct, Result, ok, err, panic, map_result, map_result-cons, UuidCodec, TxManager, Bool, true,
  if◌then◌else◌,
}
use rocket_factory.Prelude.Action
use rocket_factory.Prelude.Action.{lift, pure}
use rocket_factory.Inventory.Errors
use rocket_factory.Inventory.Record.{PartPropertiesRecord}
use rocket_factory.Inventory.Part
use rocket_factory.Inventory.Properties
use rocket_factory.Inventory.Repository
use rocket_factory.Inventory.Repository.{Table, is_empty}
use rocket_factory.Inventory.Repository.Selection.{row_ids}
use rocket_factory.Inventory.Repository.Batch.{fetch-uuid}
use rocket_factory.Inventory.Repository.Listing.{fetch, list_parts-eq, unless_fault}
use rocket_factory.Inventory.Service
use rocket_factory.Inventory.Api
use rocket_factory.Inventory.Api.{PartProto, part_model_to_part_proto, part_type_proto_to_model}
use rocket_factory.Inventory.Api.Wire.{parse_uuids-to_string}
use rocket_factory.Order.Model
use rocket_factory.Order.Clients
use rocket_factory.Order.Clients.{
  with_error, restore_part, uuids_to_strings, inventory_error, part_from_proto,
}
use rocket_factory.Order.Clients.Paths.{StatusRules}
use rocket_factory.Order.System.{inventory_stub}
use rocket_factory.Order.System.Replies.{answered, uuids_to_strings-map}

module _ (codec : UuidCodec) (unmarshal : String → Option PartPropertiesRecord) where
  fetched-uuids :
      (t : Table) (us : List ℕ) {ps : List Part.Part}
      → map_result (fetch unmarshal t) us ≡ ok ps
      → map (λ p. p.uuid) ps ≡ us
  fetched-uuids t [] h = cc
  fetched-uuids t (u ∷ us) {ps} h =
      let (p, rest, first, others, same) = map_result-cons (fetch unmarshal t) u us h in
      ap (map (λ q. q.uuid)) same
      ∙ ap₂ ◌∷◌ (fetch-uuid unmarshal t u first) (fetched-uuids t us {ps = rest} others)

  -- The loop of the client reads back the identifiers that the handler printed.
  restored-uuids :
      (ps : List Part.Part) {qs : List Model.Part}
      → map_result
          (λ p. restore_part codec p (codec.parse p.uuid))
          (map (part_model_to_part_proto codec) ps)
        ≡ ok qs
      → map (λ q. q.uuid) qs ≡ map (λ p. p.uuid) ps
  unfolding part_model_to_part_proto part_from_proto
  restored-uuids [] h = cc
  restored-uuids (p ∷ ps) h =
      let (q, rest, first, others, same) =
        map_result-cons (λ m. restore_part codec m (codec.parse m.uuid))
          (part_model_to_part_proto codec p) (map (part_model_to_part_proto codec) ps) h in
      let first' = rw (codec.parse-to_string p.uuid) at first in
      let named : q.uuid ≡ p.uuid = cc in
      ap (map (λ q. q.uuid)) same ∙ ap₂ ◌∷◌ named (restored-uuids ps {qs = rest} others)

-- What a handler that printed its parts had got from the service.
printed_answer :
    (codec : UuidCodec) {W : Type 0} (r : Result Errors.Error (List Part.Part)) (w : W)
    {ps : List PartProto}
    → (Action.continue r (λ parts. pure (map (part_model_to_part_proto codec) parts)) w).0 ≡ ok ps
    → (qs : List Part.Part) × (r ≡ ok qs) × (ps ≡ map (part_model_to_part_proto codec) qs)
printed_answer codec (ok qs) w h = (qs, refl, cc)
printed_answer codec (err e) w h = cc
printed_answer codec panic w h = cc

found :
    (fault : Option Errors.Error) (all : Bool) (r : Result Errors.Error (List Part.Part))
    {qs : List Part.Part}
    → unless_fault fault (if all then r else err Errors.part_not_found) ≡ ok qs
    → r ≡ ok qs
found none true r h = h
found none false r h = cc
found (some e) all r h = cc

module _ (codec : UuidCodec) (rules : StatusRules)
    (unmarshal : String → Option PartPropertiesRecord) (inventory_db : Repository.Postgres)
    {Y : Type 0} (inventory_tx : TxManager Errors.Error Table Y) (admits : Y → Bool) where
  -- The handler, on identifiers that the client printed.
  served-uuids :
      (us : List ℕ) (t : Table) (y : Y) {ps : List PartProto}
      → is_empty us ≡ false
      → IsDistinct (row_ids t)
      → (Api.list_parts codec unmarshal inventory_db inventory_tx
          (uuids_to_strings codec us)
          Api.proto_unspecified
          (t, y)).0
        ≡ ok ps
      → (qs : List Part.Part) × (map (λ q. q.uuid) qs ≡ us)
        × (ps ≡ map (part_model_to_part_proto codec) qs)
  unfolding Api.list_parts Service.list Repository.list part_type_proto_to_model
  served-uuids us t y {ps} ne d h =
      let h1 =
        ap
          (λ ss.
            (Api.list_parts codec unmarshal inventory_db inventory_tx ss Api.proto_unspecified
              (t, y)).0)
          (sym (uuids_to_strings-map codec rules unmarshal inventory_db inventory_tx admits us))
        ∙ h in
      let h2 =
        rw
          (
            parse_uuids-to_string codec us,
            list_parts-eq unmarshal t inventory_db us Properties.part_type_unspecified false y ne d,
          )
          at h1 in
      let (qs, got, same) = printed_answer codec _ (t, y) h2 in
      (qs, fetched-uuids codec unmarshal t us (found _ _ _ got), same)

  -- Without an error, the client lists one part for each identifier that it asked for, in the order
  -- of the request, with that identifier.
  pub list_parts-uuids :
      (us : List ℕ) (t : Table) (y : Y) {qs : List Model.Part}
      → is_empty us ≡ false
      → IsDistinct (row_ids t)
      → (Clients.list_parts codec
          (inventory_stub codec rules unmarshal inventory_db inventory_tx admits)
          us
          (t, y)).0
        ≡ ok qs
      → map (λ q. q.uuid) qs ≡ us
  unfolding Clients.list_parts
  list_parts-uuids us t y {qs} ne d h =
      let call =
        Api.list_parts codec unmarshal inventory_db inventory_tx (uuids_to_strings codec us)
          Api.proto_unspecified in
      let (ps, answer, rest) =
        Action.>>=-eq-ok
          (λ x. with_error inventory_error (
            (inventory_stub codec rules unmarshal inventory_db inventory_tx admits).list_parts
              (uuids_to_strings codec us) x))
          (λ parts. lift (map_result (λ p. restore_part codec p (codec.parse p.uuid)) parts)) (t, y)
          _
          (ap
            (λ r. (
              r,
              (Clients.list_parts codec
                  (inventory_stub codec rules unmarshal inventory_db inventory_tx admits) us
                  (t, y)).1,
            ))
            h) in
      let served =
        answered codec rules unmarshal inventory_db inventory_tx admits call (t, y) answer in
      let (parts, named, printed) = served-uuids us t y ne d (ap (λ r. r.0) served) in
      let back = rw printed at (ap (λ r. r.0) rest) in
      restored-uuids codec unmarshal parts back ∙ named
