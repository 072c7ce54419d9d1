-- ===== src/Inventory/Api/Reads.antt =====
-- The two calls of the inventory that only read leave its table alone
-- (inventory/internal/api/inventory/v1/{list,validate_compatibility}.go).
use rocket_factory.Prelude.{
  String, ◌≡◌, refl, sym, subst, Bool, false, Option, Option-cases, inl, inr, List, UuidCodec,
  TxManager,
}
use rocket_factory.Prelude.Action
use rocket_factory.Prelude.Action.{Keeps, lift}
use rocket_factory.Inventory.Errors
use rocket_factory.Inventory.Record.{PartPropertiesRecord}
use rocket_factory.Inventory.Repository
use rocket_factory.Inventory.Repository.{Table, PartFilter}
use rocket_factory.Inventory.Service
use rocket_factory.Inventory.Compatibility
use rocket_factory.Inventory.Compatibility.Resolve
use rocket_factory.Inventory.Api

module _ (unmarshal : String → Option PartPropertiesRecord) (db : Repository.Postgres) {X : Type 0}
    (w : Table × X) where
  abbrev pub Is : Table × X → Type 0
  Is v = v ≡ w

  list_parts-Keeps :
      (f : PartFilter) (for_update : Bool)
      → (Repository.list_parts unmarshal db f for_update w).1 ≡ w
  unfolding Repository.list_parts
  list_parts-Keeps f for_update =
      elim (Option-cases (db.select_fault (Repository.build_list_query f for_update) w.0)) [
        | inl fine ↦ rw fine refl
        | inr (e, bad) ↦ rw bad refl
      ]

  get_listed : (f : PartFilter) → Keeps Is (Repository.list unmarshal db f)
  unfolding Repository.list
  get_listed f v same =
      subst (λ u. Is (Repository.list_parts unmarshal db f false u).1) (sym same)
        (list_parts-Keeps f false)

  pub listed-Keeps :
      (codec : UuidCodec) (tx : TxManager Errors.Error Table X) (us : List String)
      (t : Api.PartTypeProto)
      → Keeps Is (Api.list_parts codec unmarshal db tx us t)
  unfolding Api.list_parts Service.list
  listed-Keeps codec tx us t =
      Action.>>=-Keeps Is (lift (Api.parse_uuids codec us)) _ (λ v p. p)
        (λ ids.
          Action.>>=-Keeps Is (Service.list unmarshal db tx ids (Api.part_type_proto_to_model t)) _
            (get_listed _) (λ parts v p. p))

  pub validated-Keeps :
      (codec : UuidCodec) (tx : TxManager Errors.Error Table X) (req : Api.ValidateRequest)
      → Keeps Is (Api.validate codec unmarshal db tx req)
  unfolding Api.validate Resolve.validate_compatibility Resolve.resolve_ship_slots
  validated-Keeps codec tx req =
      Action.>>=-Keeps Is (lift (Api.compose_ship_slots codec req)) _ (λ v p. p)
        (λ slots.
          Action.>>=-Keeps Is (Resolve.resolve_ship_slots unmarshal db slots) _
            (Action.>>=-Keeps Is
              (lift (Compatibility.collect_uuids (Compatibility.requests_of slots))) _ (λ v p. p)
              (λ uuids.
                Action.>>=-Keeps Is
                  (lift (Compatibility.validate_duplicate_uuids (Compatibility.requests_of slots)))
                  _ (λ v p. p)
                  (λ _.
                    Action.>>=-Keeps Is
                      (Repository.list unmarshal db (record { uuids = uuids; part_type = "" })) _
                      (get_listed _) (λ parts v p. p))))
            (λ parts v p. p))
