-- ===== src/Inventory/Api/Wire.antt =====
-- What the handlers of the inventory do with identifiers that a client printed
-- (inventory/internal/api/inventory/v1, inventory/internal/api/converter/part.go).
use rocket_factory.Prelude.{
  ℕ, String, ◌≡◌, ◌≢◌, ◌⊎◌, refl, ap, Option, none, some, List, [], ◌∷◌, map, ok, UuidCodec,
  TxManager, arith, str_eq, eq_iff, nil_uuid, Bool-cases, inl, inr,
}
use rocket_factory.Inventory.Errors.{Error}
use rocket_factory.Inventory.Properties.{
  part_type_hull, part_type_engine, part_type_shield, part_type_weapon, part_type_unspecified,
}
use rocket_factory.Inventory.Record.{PartPropertiesRecord}
use rocket_factory.Inventory.Repository.{Table, Postgres}
use rocket_factory.Inventory.Service
use rocket_factory.Inventory.Api.{
  part_type_model_to_proto, part_type_proto_to_model, parse_uuid, parse_uuids, parse_optional,
  compose_ship_slots, reserve_parts, release_parts, commit_parts,
}

-- A part type survives the way to the protocol and back; every string that is none of the four
-- becomes the unspecified type.
pub part_type_proto_to_model-part_type_model_to_proto :
    (t : String)
    → (part_type_proto_to_model (part_type_model_to_proto t) ≡ t)
      ⊎ ((part_type_proto_to_model (part_type_model_to_proto t) ≡ part_type_unspecified)
          × (t ≢ part_type_hull)
          × (t ≢ part_type_engine)
          × (t ≢ part_type_shield)
          × (t ≢ part_type_weapon))
unfolding part_type_proto_to_model part_type_model_to_proto
part_type_proto_to_model-part_type_model_to_proto t = elim (Bool-cases (str_eq t part_type_hull)) [
  | inl e ↦ inl (rw e (ground (arith, e, eq_iff t part_type_hull)))
  | inr e1 ↦ elim (Bool-cases (str_eq t part_type_engine)) [
    | inl e ↦ inl (rw (e1, e) (ground (arith, e, eq_iff t part_type_engine)))
    | inr e2 ↦ elim (Bool-cases (str_eq t part_type_shield)) [
      | inl e ↦ inl (rw (e1, e2, e) (ground (arith, e, eq_iff t part_type_shield)))
      | inr e3 ↦ elim (Bool-cases (str_eq t part_type_weapon)) [
        | inl e ↦ inl (rw (e1, e2, e3, e) (ground (arith, e, eq_iff t part_type_weapon)))
        | inr e4 ↦ inr (
          rw (e1, e2, e3, e4) refl,
          λ q. ground (arith, q, e1, eq_iff t part_type_hull),
          λ q. ground (arith, q, e2, eq_iff t part_type_engine),
          λ q. ground (arith, q, e3, eq_iff t part_type_shield),
          λ q. ground (arith, q, e4, eq_iff t part_type_weapon),
        )
      ]
    ]
  ]
]

module _ (codec : UuidCodec) where
  parse_uuid-to_string : (u : ℕ) → parse_uuid codec (codec.to_string u) ≡ ok u
  unfolding parse_uuid
  parse_uuid-to_string u = rw (codec.parse-to_string u) refl

  pub parse_uuids-to_string : (us : List ℕ) → parse_uuids codec (map codec.to_string us) ≡ ok us
  unfolding parse_uuids
  parse_uuids-to_string [] = refl
  parse_uuids-to_string (u ∷ us) = rw (parse_uuid-to_string u, parse_uuids-to_string us) refl

  -- A client's way to write an optional identifier.
  abbrev pub write_optional : Option ℕ → String
  write_optional none = ""
  write_optional (some u) = codec.to_string u

  abbrev pub or_nil : Option ℕ → ℕ
  or_nil none = nil_uuid
  or_nil (some u) = u

  parse_optional-write_optional :
      (o : Option ℕ) → parse_optional codec (write_optional o) ≡ ok (or_nil o)
  parse_optional-write_optional none = refl
  parse_optional-write_optional (some u) = elim (Bool-cases (str_eq (codec.to_string u) "")) [
    | inr e ↦ rw e (parse_uuid-to_string u)
    | inl e ↦
        let blank : codec.to_string u ≡ "" = ground (arith, e, eq_iff (codec.to_string u) "") in
        cc (codec.parse-to_string u, codec.parse_empty, ap codec.parse blank)
  ]

  -- The slots that composeShipSlots reads are the ones that were written, with no identifier for a
  -- slot that was left out.
  pub compose_ship_slots-to_string :
      (hull engine : ℕ) (shield weapon : Option ℕ)
      → compose_ship_slots codec (record {
        hull_uuid = codec.to_string hull;
        engine_uuid = codec.to_string engine;
        shield_uuid = write_optional shield;
        weapon_uuid = write_optional weapon;
      })
        ≡ ok (record {
          hull_uuid = hull;
          engine_uuid = engine;
          shield_uuid = or_nil shield;
          weapon_uuid = or_nil weapon;
        })
  unfolding compose_ship_slots
  compose_ship_slots-to_string hull engine shield weapon =
      rw
        (
          parse_uuid-to_string hull,
          parse_uuid-to_string engine,
          parse_optional-write_optional shield,
          parse_optional-write_optional weapon,
        )
        refl

  module _ (unmarshal : String → Option PartPropertiesRecord) (db : Postgres) {X : Type 0}
      (tx : TxManager Error Table X) (us : List ℕ) (w : Table × X) where
    -- On identifiers that a client printed, the three handlers that move counters are the service.
    pub reserve_parts-to_string :
        (reserve_parts codec unmarshal db tx (map codec.to_string us) w
          ≡ Service.reserve unmarshal db tx us w)
        × (release_parts codec unmarshal db tx (map codec.to_string us) w
            ≡ Service.release unmarshal db tx us w)
        × (commit_parts codec unmarshal db tx (map codec.to_string us) w
            ≡ Service.commit unmarshal db tx us w)
    unfolding reserve_parts release_parts commit_parts
    reserve_parts-to_string = (
      rw (parse_uuids-to_string us) refl,
      rw (parse_uuids-to_string us) refl,
      rw (parse_uuids-to_string us) refl,
    )
