-- ===== src/Platform/Kafka/Rounds.antt =====
-- The loop over the rounds of a consumer group ends (platform/pkg/kafka/consumer/consumer.go).
use rocket_factory.Prelude.{
  ℕ, String, List, zero, suc, ◌<◌, ◌≤◌, ◌≡◌, ◌⊎◌, refl, Option, none, some, Option-cases, inl, inr,
  arith,
}
use rocket_factory.Platform.Kafka.{
  Handler, Consumer, new_group_handler, GroupError, closed_consumer_group, failed, consume_loop,
  consume, leaves,
}

module _ {E W : Type 0} (group_consume : W → Option (GroupError E) × W)
    (ctx_err : W → Option E) where
  -- The world after so many calls of the group.
  abbrev pub after : ℕ → W → W
  after zero w = w
  after (suc n) w = after n (group_consume w).1

  -- The call of the group ends the consumption with nil, as the group is closed, or with the error that
  -- it gives, or else with the error of the context after it.
  abbrev pub Ends : W → Option E → Type 0
  Ends w out =
      (((group_consume w).0 ≡ some closed_consumer_group) × (out ≡ none))
      ⊎ ((e : E) × ((group_consume w).0 ≡ some (failed e)) × (out ≡ some e))
      ⊎ ((e : E) × ((group_consume w).0 ≡ none)
          × (ctx_err (group_consume w).1 ≡ some e)
          × (out ≡ some e))

  -- The call of the group gives no error and leaves the context alive.
  abbrev pub GoesOn : W → Type 0
  GoesOn w = ((group_consume w).0 ≡ none) × (ctx_err (group_consume w).1 ≡ none)

  -- What the loop would return after a call of the group.
  abbrev exit_of : W → Option (Option E)
  exit_of w = leaves group_consume ctx_err (group_consume w).0 (ctx_err (group_consume w).1)

  exit_of-Ends : (w : W) {out : Option E} → Ends w out → exit_of w ≡ some out
  exit_of-Ends w (inl (closed, nil)) = rw (closed, nil) refl
  exit_of-Ends w (inr (inl (e, fails, out))) = rw (fails, out) refl
  exit_of-Ends w (inr (inr (e, fine, done, out))) = rw (fine, done, out) refl

  Ends-cases : (w : W) → GoesOn w ⊎ ((out : Option E) × Ends w out)
  Ends-cases w = elim (Option-cases (group_consume w).0) [
    | inl fine ↦ elim (Option-cases (ctx_err (group_consume w).1)) [
      | inl alive ↦ inl (fine, alive)
      | inr (e, done) ↦ inr (some e, inr (inr (e, fine, done, refl)))
    ]
    | inr (closed_consumer_group, closed) ↦ inr (none, inl (closed, refl))
    | inr (failed e, fails) ↦ inr (some e, inr (inl (e, fails, refl)))
  ]

  exit_of-GoesOn : (w : W) → GoesOn w → exit_of w ≡ none
  exit_of-GoesOn w (fine, alive) = rw (fine, alive) refl

  GoesOn-suc :
      (first : ℕ) (w : W)
      → GoesOn w
      → ((k : ℕ) → k < first → GoesOn (after k (group_consume w).1))
      → (k : ℕ) → k < suc first
      → GoesOn (after k w)
  GoesOn-suc first w here later zero h = here
  GoesOn-suc first w here later (suc k) h = later k (omega arith)

  -- The loop returns by the first call that ends it.
  pub consume_loop-Ends :
      (n rounds : ℕ) (w : W) {out : Option E}
      → Ends (after n w) out
      → n < rounds
      → (last : ℕ) × (result : Option E) × (last ≤ n)
        × ((k : ℕ) → k < last → GoesOn (after k w))
        × Ends (after last w) result
        × (consume_loop group_consume ctx_err rounds w ≡ (some result, after (suc last) w))
  unfolding consume_loop
  consume_loop-Ends n zero w stops enough = absurd (omega arith)
  consume_loop-Ends zero (suc rounds) w {out} stops enough =
      (0, out, omega arith, λ k h. absurd (omega arith), stops, rw (exit_of-Ends w stops) refl)
  consume_loop-Ends (suc n) (suc rounds) w stops enough = elim (Ends-cases w) [
    | inr (out, now) ↦
        (0, out, omega arith, λ k h. absurd (omega arith), now, rw (exit_of-Ends w now) refl)
    | inl on ↦
        let (last, result, before, earlier, ends, runs) =
          consume_loop-Ends n rounds (group_consume w).1 stops (omega arith) in
        (
          suc last,
          result,
          omega arith,
          GoesOn-suc last w on earlier,
          ends,
          rw (exit_of-GoesOn w on) runs,
        )
  ]

module _ {E W : Type 0} (group : List String → Handler E W → W → Option (GroupError E) × W)
    (ctx_err : W → Option E) (c : Consumer E W) (handler : Handler E W) where
  -- One call of the group, for the topics of the consumer and its handler inside the middlewares.
  abbrev pub call : W → Option (GroupError E) × W
  call = group c.topics (new_group_handler handler c.middlewares)

  -- Where some call of the group would give an error or leave the context done, and so many rounds are
  -- given, the loop returns after that call or an earlier one: nil if the call found the group closed,
  -- the call's error if it was another one, or the error of the context if there was none. Every call
  -- before that one gave no error and left the context alive.
  pub consume-Ends :
      (n rounds : ℕ) (w : W) {out : Option E}
      → Ends call ctx_err (after call ctx_err n w) out
      → n < rounds
      → (last : ℕ) × (result : Option E) × (last ≤ n)
        × ((k : ℕ) → k < last → GoesOn call ctx_err (after call ctx_err k w))
        × Ends call ctx_err (after call ctx_err last w) result
        × (consume group ctx_err c handler rounds w
            ≡ (some result, after call ctx_err (suc last) w))
  unfolding consume
  consume-Ends n rounds w stops enough = consume_loop-Ends call ctx_err n rounds w stops enough
