-- ===== src/Platform/Kafka/Tests.antt =====
-- The theorems on Kafka at concrete messages.
use rocket_factory.Prelude.{
  ℕ, inl, suc, ◌+◌, ◌<◌, ◌≤◌, String, ◌≡◌, refl, Bool, false, Option, none, some, List, [], ◌∷◌,
  map, str_eq, ◌==◌, if◌then◌else◌, ok, err, arith,
}
use rocket_factory.Prelude.Int.{ℤ, pos, ◌<ℤ◌, ◌≤ℤ◌, ltb_ℤ, ◌+ℤ◌}
use rocket_factory.Session.{Context, Header}
use rocket_factory.Platform.Kafka.{
  ConsumerMessage, Handler, Middleware, Event, message, session_done, decoded, consume_claim,
  new_group_handler, consume, GroupError, closed_consumer_group, Consumer, extract_headers,
  convert_headers,
}
use rocket_factory.Platform.Kafka.Chain.{extract_headers-convert_headers}
use rocket_factory.Platform.Kafka.Claims.{
  Offsets, attempts, succeeded, mark_all, consume_claim-succeeded, consume_claim_passes_failed,
}
use rocket_factory.Platform.Kafka.Rounds.{call, Ends, GoesOn, after, consume-Ends}

abbrev somebody : Context
somebody = record { user_uuid = none; session_uuid = some 3 }

abbrev at : ℤ → String → ConsumerMessage
at o v = record {
  headers = [];
  timestamp = pos 0;
  key = "";
  value = v;
  topic = "t";
  partition = pos 0;
  offset = o;
}

-- A handler that notes what it gets, the latest first, and refuses "bad".
abbrev noting : Handler ℕ (List String)
noting ctx m w = if str_eq m.value "bad" then (err 1, m.value ∷ w) else (ok tt, m.value ∷ w)

abbrev never : ℕ → Bool
never e = false

abbrev noted : List ConsumerMessage → List ConsumerMessage
noted s = s

-- The offset after the highest that was marked.
abbrev higher : ConsumerMessage → ℤ → ℤ
higher m p = if ltb_ℤ m.offset p then p else m.offset +ℤ pos 1

higher_covers : (m : ConsumerMessage) (p : ℤ) → m.offset <ℤ higher m p
unfolding ◌+ℤ◌
higher_covers m p = ground arith

higher_keeps : (m : ConsumerMessage) (p : ℤ) → p ≤ℤ higher m p
unfolding ◌+ℤ◌
higher_keeps m p = ground arith

abbrev highest : Offsets ℤ
highest = record { mark = higher; position = λ p. p; covers = higher_covers; keeps = higher_keeps }

abbrev events : List Event
events = message (at (pos 4) "bad") ∷ message (at (pos 5) "good") ∷ session_done ∷ []

consume_claim-succeeded_example :
    (consume_claim never (λ m s. m ∷ s) noting somebody events ([], [])).1.1
    ≡ mark_all never noting somebody
        (λ m s. m ∷ s)
        (succeeded never noting somebody (attempts never noting somebody events []))
        []
consume_claim-succeeded_example =
    consume_claim-succeeded never noting somebody (λ m s. m ∷ s) events [] []

claim_run :
    (consume_claim never (λ m s. m ∷ s) noting somebody events ([], [])).1
    ≡ ("good" ∷ "bad" ∷ [], at (pos 5) "good" ∷ [])
unfolding consume_claim decoded
claim_run = refl

consume_claim_passes_failed_example :
    pos 4 <ℤ (consume_claim never higher noting somebody events ([], pos 4)).1.1
unfolding decoded
consume_claim_passes_failed_example =
    consume_claim_passes_failed never noting somebody highest (at (pos 4) "bad") (at (pos 5) "good")
      (session_done ∷ []) [] ("bad" ∷ []) ("good" ∷ "bad" ∷ []) (pos 4) 1 refl refl refl
      (omega arith)

-- A middleware that notes its name.
abbrev named : String → Middleware ℕ (List String)
named n next ctx m w = next ctx m (n ∷ w)

chain_run :
    new_group_handler noting (named "a" ∷ named "b" ∷ []) somebody (decoded (at (pos 1) "m")) []
    ≡ (ok tt, "m" ∷ "b" ∷ "a" ∷ [])
unfolding new_group_handler decoded
chain_run = refl

-- A group that is closed in its third call.
abbrev group : List String → Handler ℕ ℕ → ℕ → Option (GroupError ℕ) × ℕ
group topics h n = (if n == 2 then some closed_consumer_group else none, n + 1)

abbrev running : ℕ → Option ℕ
running n = none

abbrev consumer : Consumer ℕ ℕ
consumer = record { topics = "t" ∷ []; middlewares = [] }

abbrev idle : Handler ℕ ℕ
idle ctx m w = (ok tt, w)

consume-Ends_example :
    (last : ℕ) × (result : Option ℕ) × (last ≤ 2)
    × ((k : ℕ)
        → k < last
        → GoesOn
            (call group running consumer idle)
            running
            (after (call group running consumer idle) running k 0))
    × Ends
        (call group running consumer idle)
        running
        (after (call group running consumer idle) running last 0)
        result
    × (consume group running consumer idle 9 0
        ≡ (some result, after (call group running consumer idle) running (suc last) 0))
consume-Ends_example =
    consume-Ends group running consumer idle 2 9 0 {out = none} (inl (refl, refl)) (omega arith)

abbrev pair : List Header
pair = record { key = "a"; value = "1" } ∷ record { key = "a"; value = "" } ∷ []

extract_headers-convert_headers_example :
    extract_headers (map (λ h. some h) (convert_headers pair)) ≡ pair
extract_headers-convert_headers_example = extract_headers-convert_headers pair
