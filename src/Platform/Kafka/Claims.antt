-- ===== src/Platform/Kafka/Claims.antt =====
-- What a consumer of a partition marks (platform/pkg/kafka/consumer/group_handler.go).
use rocket_factory.Prelude.{
  ◌≡◌, refl, Bool, true, false, Bool-cases, inl, inr, List, [], ◌∷◌, if◌then◌else◌, Result, ok, err,
  panic, arith,
}
use rocket_factory.Prelude.Int.{ℤ, ◌<ℤ◌, ◌≤ℤ◌}
use rocket_factory.Session.{Context}
use rocket_factory.Platform.Kafka.{
  ConsumerMessage, Handler, Event, message, channel_closed, session_done, decoded, consume_claim,
  proceed,
}

module _ {E W : Type 0} (stops : E → Bool) (handler : Handler E W) (ctx : Context) where
  -- Whether the loop ends with the answer of its handler.
  abbrev ends : Result E (Unit {0}) → Bool
  ends (ok _) = false
  ends (err e) = stops e
  ends panic = true

  -- The messages of a claim with the answers of the handler, in order, up to the one that ends it.
  pub attempts : List Event → W → List (ConsumerMessage × Result E (Unit {0}))
  attempts [] w = []
  attempts (message m ∷ events) w =
      let (r, w') = handler ctx (decoded m) w in
      let rest = attempts events w' in (m, r) ∷ (if ends r then [] else rest)
  attempts (channel_closed ∷ events) w = []
  attempts (session_done ∷ events) w = []

  -- The messages that were handled without error.
  abbrev pub succeeded : List (ConsumerMessage × Result E (Unit {0})) → List ConsumerMessage
  succeeded [] = []
  succeeded ((m, ok _) ∷ rest) = m ∷ succeeded rest
  succeeded ((m, err _) ∷ rest) = succeeded rest
  succeeded ((m, panic) ∷ rest) = succeeded rest

  abbrev pub mark_all : {S : Type 0} → (ConsumerMessage → S → S) → List ConsumerMessage → S → S
  mark_all mark [] s = s
  mark_all mark (m ∷ ms) s = mark_all mark ms (mark m s)

  module _ {S : Type 0} (mark : ConsumerMessage → S → S) where
    -- What a claim has marked when it waits or ends, however it ends: the messages that its handler
    -- took without error, each once, in the order of the partition, and no other.
    pub consume_claim-succeeded :
        (events : List Event) (w : W) (s : S)
        → (consume_claim stops mark handler ctx events (w, s)).1.1
          ≡ mark_all mark (succeeded (attempts events w)) s
    unfolding consume_claim attempts
    consume_claim-succeeded [] w s = refl
    consume_claim-succeeded (channel_closed ∷ events) w s = refl
    consume_claim-succeeded (session_done ∷ events) w s = refl
    consume_claim-succeeded (message m ∷ events) w s =
        by_answer (handler ctx (decoded m) w) (consume_claim-succeeded events)
      where
        by_answer :
            (q : Result E (Unit {0}) × W)
            → ((v : W) (t : S)
                → (consume_claim stops mark handler ctx events (v, t)).1.1
                  ≡ mark_all mark (succeeded (attempts events v)) t)
            → (proceed stops mark (consume_claim stops mark handler ctx events) m s q).1.1
              ≡ mark_all mark
                  (succeeded ((m, q.0) ∷ (if ends q.0 then [] else attempts events q.1)))
                  s
        by_answer (ok _, v) ih = ih v (mark m s)
        by_answer (panic, v) ih = refl
        by_answer (err e, v) ih = elim (Bool-cases (stops e)) [
          | inl stop ↦ rw stop refl
          | inr on ↦ rw on (ih v s)
        ]

-- What sarama documents of a session: a mark of a message puts the position of its partition, where
-- the group goes on after a restart, behind the message, and no mark puts it back.
pub record Offsets (S : Type 0) : Type 0 where
  pub mark : ConsumerMessage → S → S
  pub position : S → ℤ
  pub covers : (m : ConsumerMessage) (s : S) → m.offset <ℤ position (mark m s)
  pub keeps : (m : ConsumerMessage) (s : S) → position s ≤ℤ position (mark m s)

module _ {E W S : Type 0} (stops : E → Bool) (handler : Handler E W) (ctx : Context)
    (o : Offsets S) where
  -- A claim never puts the position back.
  pub consume_claim_keeps :
      (events : List Event) (w : W × S)
      → o.position w.1 ≤ℤ o.position (consume_claim stops o.mark handler ctx events w).1.1
  unfolding consume_claim
  consume_claim_keeps [] w = omega arith
  consume_claim_keeps (channel_closed ∷ events) w = omega arith
  consume_claim_keeps (session_done ∷ events) w = omega arith
  consume_claim_keeps (message m ∷ events) w =
      by_answer (handler ctx (decoded m) w.0) (consume_claim_keeps events)
    where
      by_answer :
          (q : Result E (Unit {0}) × W)
          → ((v : W × S)
              → o.position v.1 ≤ℤ o.position (consume_claim stops o.mark handler ctx events v).1.1)
          → o.position w.1
            ≤ℤ o.position
                (proceed stops o.mark (consume_claim stops o.mark handler ctx events) m w.1 q).1.1
      by_answer (ok _, v) ih = omega (arith, ih (v, o.mark m w.1), o.keeps m w.1)
      by_answer (panic, v) ih = omega arith
      by_answer (err e, v) ih = elim (Bool-cases (stops e)) [
        | inl stop ↦ rw stop (omega arith)
        | inr on ↦ rw on (ih (v, w.1))
      ]

  -- A message whose handler failed, and not by cancellation, is lost to the group once a later
  -- message of the partition is handled: whatever comes then, the position is behind it.
  pub consume_claim_passes_failed :
      (m next : ConsumerMessage) (events : List Event) (w v u : W) (s : S) (e : E)
      → handler ctx (decoded m) w ≡ (err e, v)
      → stops e ≡ false
      → handler ctx (decoded next) v ≡ (ok tt, u)
      → m.offset <ℤ next.offset
      → m.offset
        <ℤ o.position
            (consume_claim stops o.mark handler ctx (message m ∷ message next ∷ events) (w, s)).1.1
  unfolding consume_claim
  consume_claim_passes_failed m next events w v u s e fails on succeeds later =
      rw (fails, on, succeeds)
        (omega (arith, o.covers next s, consume_claim_keeps events (u, o.mark next s)))
