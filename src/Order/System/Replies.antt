-- ===== src/Order/System/Replies.antt =====
-- What the order service makes of the inventory's replies, and that the calls that only read leave the
-- inventory's table alone (order/internal/client/grpc/inventory, inventory/internal/api/inventory/v1).
use rocket_factory.Prelude.{
  Bool, Bool-cases, inl, inr, ℕ, String, ◌≡◌, refl, ◌∙◌, ap, Option, List, [], ◌∷◌, map, Result, ok,
  err, panic, UuidCodec, TxManager,
}
use rocket_factory.Prelude.Action
use rocket_factory.Prelude.Action.{Action, Keeps, lift}
use rocket_factory.Inventory.Errors
use rocket_factory.Inventory.Record.{PartPropertiesRecord}
use rocket_factory.Inventory.Repository
use rocket_factory.Inventory.Repository.{Table, PartFilter}
use rocket_factory.Inventory.Api
use rocket_factory.Inventory.Api.Reads.{Is, listed-Keeps, validated-Keeps}
use rocket_factory.Order.Model.{OrderParts}
use rocket_factory.Order.Clients
use rocket_factory.Order.Clients.{inventory_error, uuids_to_strings, with_error}
use rocket_factory.Order.Clients.Paths.{StatusRules}
use rocket_factory.Order.System.{server, serve, inventory_stub}

module _ (codec : UuidCodec) (rules : StatusRules)
    (unmarshal : String → Option PartPropertiesRecord) (inventory_db : Repository.Postgres)
    {Y : Type 0} (inventory_tx : TxManager Errors.Error Table Y) (admits : Y → Bool) where
  pub uuids_to_strings-map : (us : List ℕ) → uuids_to_strings codec us ≡ map codec.to_string us
  unfolding uuids_to_strings
  uuids_to_strings-map [] = refl
  uuids_to_strings-map (u ∷ us) = ap (λ rest. codec.to_string u ∷ rest) (uuids_to_strings-map us)

  served :
      {A : Type 0} (q : Result Errors.Error A × (Table × Y)) {a : A}
      → (with_error inventory_error
          (server codec rules unmarshal inventory_db inventory_tx admits q)).0
        ≡ ok a
      → q ≡ (
        ok a,
        (with_error inventory_error
            (server codec rules unmarshal inventory_db inventory_tx admits q)).1,
      )
  served (ok b, v) {a = a} h = let same : b ≡ a = cc in ap (λ c. (ok c, v)) same
  served (err e, v) h = cc
  served (panic, v) h = cc

  -- A call of the client that is answered without an error was admitted, and its handler gave that answer.
  pub answered :
      {A : Type 0} (handler : Action Errors.Error (Table × Y) A) (w : Table × Y) {a : A}
      → (with_error inventory_error
          (serve codec rules unmarshal inventory_db inventory_tx admits handler w)).0
        ≡ ok a
      → handler w ≡ (
        ok a,
        (with_error inventory_error
            (serve codec rules unmarshal inventory_db inventory_tx admits handler w)).1,
      )
  answered handler w h = elim (Bool-cases (admits w.1)) [
    | inl known ↦ let h1 = rw known at h in rw known (served (handler w) h1)
    | inr unknown ↦ cc (rw unknown at h)
  ]

  served_world :
      {A : Type 0} (q : Result Errors.Error A × (Table × Y))
      → (with_error inventory_error
          (server codec rules unmarshal inventory_db inventory_tx admits q)).1
        ≡ q.1
  served_world (ok b, v) = refl
  served_world (err e, v) = refl
  served_world (panic, v) = refl

  -- A handler that leaves the world alone does so behind the interceptors too.
  pub with_error-world :
      {A : Type 0} (handler : Action Errors.Error (Table × Y) A) (v w : Table × Y)
      → v ≡ w
      → (handler v).1 ≡ w
      → (with_error inventory_error
          (serve codec rules unmarshal inventory_db inventory_tx admits handler v)).1
        ≡ w
  with_error-world handler v w same still = elim (Bool-cases (admits v.1)) [
    | inl known ↦ rw known (served_world (handler v) ∙ still)
    | inr unknown ↦ rw unknown same
  ]

  pub listed_world :
      (us : List ℕ) (w : Table × Y)
      → (Clients.list_parts codec
          (inventory_stub codec rules unmarshal inventory_db inventory_tx admits)
          us
          w).1
        ≡ w
  unfolding Clients.list_parts
  listed_world us w =
      Action.>>=-Keeps (Is unmarshal inventory_db w)
        (λ v. with_error inventory_error (
          serve codec rules unmarshal inventory_db inventory_tx admits
            (Api.list_parts codec unmarshal inventory_db inventory_tx (uuids_to_strings codec us)
              Api.proto_unspecified)
            v))
        _
        (λ v p.
          with_error-world
            (Api.list_parts codec unmarshal inventory_db inventory_tx (uuids_to_strings codec us)
              Api.proto_unspecified)
            v w p
            (listed-Keeps unmarshal inventory_db w codec inventory_tx (uuids_to_strings codec us)
              Api.proto_unspecified v p))
        (λ parts v p. p) w refl

  pub validated_world :
      (parts : OrderParts) (w : Table × Y)
      → (Clients.validate_compatibility codec
          (inventory_stub codec rules unmarshal inventory_db inventory_tx admits)
          parts
          w).1
        ≡ w
  unfolding Clients.validate_compatibility
  validated_world parts w =
      with_error-world (Api.validate codec unmarshal inventory_db inventory_tx _) w w refl
        (validated-Keeps unmarshal inventory_db w codec inventory_tx _ w refl)
