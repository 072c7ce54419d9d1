-- ===== src/Order/Api/Answers.antt =====
-- What the answers of the HTTP handlers say (order/internal/api/order).
use rocket_factory.Prelude.{
  ℕ, String, ◌≡◌, ◌⊎◌, refl, sym, ◌∙◌, ap, Option, none, some, List, [], ◌∷◌, str_eq, eq_iff, arith,
  if◌then◌else◌, Bool-cases, true, inl, inr,
}
use rocket_factory.Order.Model.{
  OrderItem, OrderParts, part_type_hull, part_type_engine, part_type_shield, part_type_weapon,
  method_unspecified,
}
use rocket_factory.Order.Record.{OrderRecord}
use rocket_factory.Order.Service.Lifecycle.{Stage, in_pending, in_cancelled, in_paid, in_assembled}
use rocket_factory.Order.Api.{
  payment_method_from_model_to_api, payment_method_from_api_to_model,
  order_status_from_model_to_api, add_items, get_order_item_by_type,
}

-- A method that a client names comes back under that name, or it is the unspecified method to the
-- service.
pub payment_method_from_api_to_model-payment_method_from_model_to_api :
    (pm : String)
    → (payment_method_from_model_to_api (some (payment_method_from_api_to_model pm)) ≡ some pm)
      ⊎ (payment_method_from_api_to_model pm ≡ method_unspecified)
unfolding payment_method_from_api_to_model payment_method_from_model_to_api
payment_method_from_api_to_model-payment_method_from_model_to_api pm =
    elim (Bool-cases (str_eq pm "CARD")) [
      | inl e ↦ inl (rw e (ap some (sym (same "CARD" e))))
      | inr e1 ↦ elim (Bool-cases (str_eq pm "SBP")) [
        | inl e ↦ inl (rw (e1, e) (ap some (sym (same "SBP" e))))
        | inr e2 ↦ elim (Bool-cases (str_eq pm "CREDIT_CARD")) [
          | inl e ↦ inl (rw (e1, e2, e) (ap some (sym (same "CREDIT_CARD" e))))
          | inr e3 ↦ elim (Bool-cases (str_eq pm "INVESTOR_MONEY")) [
            | inl e ↦ inl (rw (e1, e2, e3, e) (ap some (sym (same "INVESTOR_MONEY" e))))
            | inr e4 ↦ inr (rw (e1, e2, e3, e4) refl)
          ]
        ]
      ]
    ]
  where
    same : (t : String) → str_eq pm t ≡ true → pm ≡ t
    same t e = ground (arith, e, eq_iff pm t)

-- The status of an order in any of the four states reaches the client as it is.
pub order_status_from_model_to_api-Stage :
    (r : OrderRecord) → Stage r → order_status_from_model_to_api r.status ≡ r.status
unfolding order_status_from_model_to_api
order_status_from_model_to_api-Stage r (in_pending s t m) = rw s refl
order_status_from_model_to_api-Stage r (in_cancelled s t m) = rw s refl
order_status_from_model_to_api-Stage r (in_paid s t m a b c) = rw s refl
order_status_from_model_to_api-Stage r (in_assembled s) = rw s refl

-- The identifier of the last item of a type.
abbrev pub later_or : Option ℕ → Option ℕ → Option ℕ
later_or none o = o
later_or (some u) o = some u

abbrev pub last_of : String → List OrderItem → Option ℕ
last_of t [] = none
last_of t (i ∷ is) = later_or (last_of t is) (if str_eq i.part_type t then some i.uuid else none)

abbrev pub or_else : Option ℕ → ℕ → ℕ
or_else none n = n
or_else (some u) n = u

or_else-later_or : (o : Option ℕ) (u n : ℕ) → or_else (later_or o (some u)) n ≡ or_else o u
or_else-later_or none u n = refl
or_else-later_or (some v) u n = refl

later_or-some : (o p : Option ℕ) (u : ℕ) → later_or (later_or o (some u)) p ≡ later_or o (some u)
later_or-some none p u = refl
later_or-some (some v) p u = refl

later_or-none : (o : Option ℕ) → later_or o none ≡ o
later_or-none none = refl
later_or-none (some v) = refl

add_items-eq :
    (items : List OrderItem) (p : OrderParts)
    → add_items items p ≡ record {
      hull_uuid = or_else (last_of part_type_hull items) p.hull_uuid;
      engine_uuid = or_else (last_of part_type_engine items) p.engine_uuid;
      shield_uuid = later_or (last_of part_type_shield items) p.shield_uuid;
      weapon_uuid = later_or (last_of part_type_weapon items) p.weapon_uuid;
    }
unfolding add_items
add_items-eq [] p = refl
add_items-eq (i ∷ is) p = elim (Bool-cases (str_eq i.part_type part_type_hull)) [
  | inl e ↦
      let t : i.part_type ≡ part_type_hull = ground (arith, e, eq_iff i.part_type part_type_hull) in
      rw t (
        add_items-eq is (record p { hull_uuid = i.uuid })
        ∙ cc (
          or_else-later_or (last_of part_type_hull is) i.uuid p.hull_uuid,
          later_or-none (last_of part_type_engine is),
          later_or-none (last_of part_type_shield is),
          later_or-none (last_of part_type_weapon is),
        ))
  | inr e1 ↦ elim (Bool-cases (str_eq i.part_type part_type_engine)) [
    | inl e ↦
        let t : i.part_type ≡ part_type_engine =
          ground (arith, e, eq_iff i.part_type part_type_engine) in
        rw t (
          add_items-eq is (record p { engine_uuid = i.uuid })
          ∙ cc (
            later_or-none (last_of part_type_hull is),
            or_else-later_or (last_of part_type_engine is) i.uuid p.engine_uuid,
            later_or-none (last_of part_type_shield is),
            later_or-none (last_of part_type_weapon is),
          ))
    | inr e2 ↦ elim (Bool-cases (str_eq i.part_type part_type_shield)) [
      | inl e ↦
          let t : i.part_type ≡ part_type_shield =
            ground (arith, e, eq_iff i.part_type part_type_shield) in
          rw t (
            add_items-eq is (record p { shield_uuid = some i.uuid })
            ∙ cc (
              later_or-none (last_of part_type_hull is),
              later_or-none (last_of part_type_engine is),
              later_or-some (last_of part_type_shield is) p.shield_uuid i.uuid,
              later_or-none (last_of part_type_weapon is),
            ))
      | inr e3 ↦ elim (Bool-cases (str_eq i.part_type part_type_weapon)) [
        | inl e ↦
            let t : i.part_type ≡ part_type_weapon =
              ground (arith, e, eq_iff i.part_type part_type_weapon) in
            rw t (
              add_items-eq is (record p { weapon_uuid = some i.uuid })
              ∙ cc (
                later_or-none (last_of part_type_hull is),
                later_or-none (last_of part_type_engine is),
                later_or-none (last_of part_type_shield is),
                later_or-some (last_of part_type_weapon is) p.weapon_uuid i.uuid,
              ))
        | inr e4 ↦
            rw (e1, e2, e3, e4)
              (add_items-eq is p
                ∙ cc (
                  later_or-none (last_of part_type_hull is),
                  later_or-none (last_of part_type_engine is),
                  later_or-none (last_of part_type_shield is),
                  later_or-none (last_of part_type_weapon is),
                ))
      ]
    ]
  ]
]

-- The slots of the DTO are the last item of each type, and the nil identifier or nothing for a
-- type that no item has.
pub get_order_item_by_type-eq :
    (items : List OrderItem)
    → get_order_item_by_type items ≡ record {
      hull_uuid = or_else (last_of part_type_hull items) 0;
      engine_uuid = or_else (last_of part_type_engine items) 0;
      shield_uuid = later_or (last_of part_type_shield items) none;
      weapon_uuid = later_or (last_of part_type_weapon items) none;
    }
unfolding get_order_item_by_type
get_order_item_by_type-eq items =
    add_items-eq items
      (record { hull_uuid = 0; engine_uuid = 0; shield_uuid = none; weapon_uuid = none })
