-- ===== src/Order/Tracing.antt =====
-- The order service with a span around Create and Pay (order/internal/service/order/tracing/service.go).
-- A tracer is its calls on what it records, which stands beside the world of the service.
use rocket_factory.Prelude.{
  ℕ, String, ◌≡◌, refl, List, [], ◌∷◌, length, Result, ok, err, panic, UuidCodec,
}
use rocket_factory.Prelude.Int.{ℤ, pos}
use rocket_factory.Prelude.Action.{Action}
use rocket_factory.Order.Errors.{Error}
use rocket_factory.Order.Model.{Order, OrderParts, total_price}

-- An attribute of a span.
pub data Attribute : Type 0 where
  text : String → String → Attribute
  number : String → ℤ → Attribute

-- The calls of the span that `otel.Tracer` starts.
pub record Tracer (S : Type 0) : Type 0 where
  pub start : String → S → S
  pub set_attributes : List Attribute → S → S
  pub record_error : Error → S → S
  pub finish : S → S

module _ (codec : UuidCodec) {S W : Type 0} (tracer : Tracer S) where
  abbrev pub created : Result Error Order × W → S → Result Error Order × (W × S)
  created (err e, w) s = (err e, (w, tracer.finish (tracer.record_error e s)))
  created (ok o, w) s = (
    ok o,
    (
      w,
      tracer.finish (
          tracer.set_attributes
            (text "order.uuid" (codec.to_string o.uuid)
              ∷ number "order.items_count" (pos (length o.items))
              ∷ number "order.total_price" (total_price o)
              ∷ [])
            s),
    ),
  )
  created (panic, w) s = (panic, (w, tracer.finish s))

  -- Create
  unfoldable pub create :
      (OrderParts → Action Error W Order) → OrderParts → Action Error (W × S) Order
  unfolding total_price
  create next parts (w, s) = created (next parts w) (
      tracer.set_attributes
        (text "order.hull_uuid" (codec.to_string parts.hull_uuid)
          ∷ text "order.engine_uuid" (codec.to_string parts.engine_uuid)
          ∷ [])
        (tracer.start "order.Create" s))

  abbrev pub paid : Result Error ℕ × W → S → Result Error ℕ × (W × S)
  paid (err e, w) s = (err e, (w, tracer.finish (tracer.record_error e s)))
  paid (ok t, w) s = (
    ok t,
    (
      w,
      tracer.finish
          (tracer.set_attributes (text "order.transaction_uuid" (codec.to_string t) ∷ []) s),
    ),
  )
  paid (panic, w) s = (panic, (w, tracer.finish s))

  -- Pay
  unfoldable pub pay : (ℕ → String → Action Error W ℕ) → ℕ → String → Action Error (W × S) ℕ
  pay next order_uuid payment_method (w, s) = paid (next order_uuid payment_method w) (
      tracer.set_attributes
        (text "order.uuid" (codec.to_string order_uuid)
          ∷ text "order.payment_method" payment_method
          ∷ [])
        (tracer.start "order.Pay" s))

  -- What is left of a traced call without what the tracer recorded.
  abbrev pub untraced : {A : Type 0} → Result Error A × (W × S) → Result Error A × W
  untraced (r, (w, s)) = (r, w)

  -- A span changes nothing of the service: with it, Create and Pay answer the same and leave the same
  -- world as without it.
  pub untraced-create :
      (next : OrderParts → Action Error W Order) (pay_next : ℕ → String → Action Error W ℕ)
      (parts : OrderParts) (u : ℕ) (method : String) (w : W) (s : S)
      → (untraced (create next parts (w, s)) ≡ next parts w)
        × (untraced (pay pay_next u method (w, s)) ≡ pay_next u method w)
  unfolding create pay
  untraced-create next pay_next parts u method w s =
      (by_order (next parts w) _, by_transaction (pay_next u method w) _)
    where
      by_order : (q : Result Error Order × W) (s : S) → untraced (created q s) ≡ q
      by_order (ok o, v) s = refl
      by_order (err e, v) s = refl
      by_order (panic, v) s = refl

      by_transaction : (q : Result Error ℕ × W) (s : S) → untraced (paid q s) ≡ q
      by_transaction (ok t, v) s = refl
      by_transaction (err e, v) s = refl
      by_transaction (panic, v) s = refl
