-- ===== src/Inventory/Service.antt =====
-- The part service (inventory/internal/service/application/part) on its repository, inside the
-- transaction manager. `X` is whatever else a transaction does not cover; the service leaves it alone.
pub mod Changed
pub mod Rows
pub mod Reservation
use rocket_factory.Prelude.{ℕ, String, Option, List, Result, ok, err, map_result, TxManager, Body}
use rocket_factory.Prelude.Action.{Action, lift, ◌>>=◌}
use rocket_factory.Inventory.Errors.{Error}
use rocket_factory.Inventory.Properties.{part_type_unspecified}
use rocket_factory.Inventory.Part.{
  Part, reserve as reserve_part, release as release_part, commit as commit_part,
}
use rocket_factory.Inventory.Record.{PartPropertiesRecord}
use rocket_factory.Inventory.Repository
use rocket_factory.Inventory.Repository.{
  PartFilter, Table, Postgres, list_for_update, update_reserved_batch,
}

-- `PartFilter{UUIDs: uuids, PartType: PartTypeUnspecified}`
abbrev pub filter_of : List ℕ → PartFilter
filter_of uuids = record { uuids = uuids; part_type = part_type_unspecified }

module _ (unmarshal : String → Option PartPropertiesRecord) (db : Postgres) where
  -- The closure that Reserve, Release and Commit hand to `txManager.Do`: they differ in the method
  -- that their loop calls on each part.
  unfoldable pub change_body :
      {X : Type 0} → (Part → Result Error Part) → List ℕ → Body Error Table X
  change_body op uuids = do
    parts ← list_for_update unmarshal db (filter_of uuids)
    changed ← lift (map_result op parts)
    update_reserved_batch db changed

  module _ {X : Type 0} (tx : TxManager Error Table X) where
    -- Get
    unfoldable pub get : ℕ → Action Error (Table × X) Part
    get uuid = Repository.get unmarshal db uuid

    -- List
    unfoldable pub list : List ℕ → String → Action Error (Table × X) (List Part)
    list uuids part_type =
        Repository.list unmarshal db (record { uuids = uuids; part_type = part_type })

    -- Reserve
    unfoldable pub reserve : List ℕ → Action Error (Table × X) (Unit {0})
    unfolding change_body
    reserve uuids = tx.run (change_body reserve_part uuids)

    -- Release
    unfoldable pub release : List ℕ → Action Error (Table × X) (Unit {0})
    unfolding change_body
    release uuids = tx.run (change_body release_part uuids)

    -- Commit
    unfoldable pub commit : List ℕ → Action Error (Table × X) (Unit {0})
    unfolding change_body
    commit uuids = tx.run (change_body commit_part uuids)
