-- ===== src/Platform/Kafka.antt =====
-- Kafka: messages and their consumption (platform/pkg/kafka, platform/pkg/middleware/kafka/logging.go).
-- A byte slice is the text that it holds.
pub mod Wire
pub mod Chain
pub mod Claims
pub mod Rounds
mod Tests
use mathlib.Core.List.{reverse}
use rocket_factory.Prelude.{
  ℕ, zero, suc, String, Bool, true, false, ◌||◌, Option, none, some, List, [], ◌∷◌, ◌++◌,
  if◌then◌else◌, Result, ok, err, panic, UuidCodec,
}
use rocket_factory.Prelude.Int.{ℤ}
use rocket_factory.Prelude.Action.{Action}
use rocket_factory.Session.{Context, Header, consumer_session}

-- kafka.Message
pub record Message : Type 0 where
  pub headers : List Header
  pub timestamp : ℤ
  pub key : String
  pub value : String
  pub topic : String
  pub partition : ℤ
  pub offset : ℤ

-- sarama.RecordHeader; a nil key is none.
pub record RecordHeader : Type 0 where
  pub key : Option String
  pub value : String

-- sarama.ConsumerMessage; a nil pointer among the headers is none.
pub record ConsumerMessage : Type 0 where
  pub headers : List (Option RecordHeader)
  pub timestamp : ℤ
  pub key : String
  pub value : String
  pub topic : String
  pub partition : ℤ
  pub offset : ℤ

-- sarama.ProducerMessage
pub record ProducerMessage : Type 0 where
  pub topic : String
  pub key : String
  pub value : String
  pub headers : List RecordHeader

-- kafka.MessageHandler and kafka.Middleware
abbrev pub Handler : Type 0 → Type 0 → Type 0
Handler E W = Context → Message → Action E W (Unit {0})

abbrev pub Middleware : Type 0 → Type 0 → Type 0
Middleware E W = Handler E W → Handler E W

abbrev pub named_header : Option String → String → List Header → List Header
named_header none value rest = rest
named_header (some k) value rest = record { key = k; value = value } ∷ rest

abbrev pub kept_header : Option RecordHeader → List Header → List Header
kept_header none rest = rest
kept_header (some h) rest = named_header h.key h.value rest

-- extractHeaders
unfoldable pub extract_headers : List (Option RecordHeader) → List Header
extract_headers [] = []
extract_headers (h ∷ hs) = kept_header h (extract_headers hs)

-- The message that ConsumeClaim hands to its handler.
unfoldable pub decoded : ConsumerMessage → Message
unfolding extract_headers
decoded message = record {
  headers = extract_headers message.headers;
  timestamp = message.timestamp;
  key = message.key;
  value = message.value;
  topic = message.topic;
  partition = message.partition;
  offset = message.offset;
}

-- convertHeaders
unfoldable pub convert_headers : List Header → List RecordHeader
convert_headers [] = []
convert_headers (h ∷ hs) = record { key = some h.key; value = h.value } ∷ convert_headers hs

-- Send of the producer, over sarama's SendMessage.
unfoldable pub send :
    {E W : Type 0}
    → String
    → (ProducerMessage → Action E W (Unit {0}))
    → Message
    → Action E W (Unit {0})
unfolding convert_headers
send topic send_message msg = send_message (record {
  topic = topic;
  key = msg.key;
  value = msg.value;
  headers = convert_headers msg.headers;
})

module _ {E W : Type 0} where
  -- The loop of NewGroupHandler, over the middlewares from the last to the first.
  abbrev pub wrap : Handler E W → List (Middleware E W) → Handler E W
  wrap handler [] = handler
  wrap handler (m ∷ ms) = wrap (m handler) ms

  -- NewGroupHandler
  unfoldable pub new_group_handler : Handler E W → List (Middleware E W) → Handler E W
  new_group_handler handler middlewares = wrap handler (reverse middlewares)

  -- ConsumerLogging; logging is left out.
  unfoldable pub consumer_logging : Middleware E W
  consumer_logging next ctx msg = next ctx msg

-- ConsumerSession, over the loop over the headers of a message.
unfoldable pub session_middleware : UuidCodec → {E W : Type 0} → Middleware E W
session_middleware codec next ctx msg = next (consumer_session codec ctx msg.headers) msg

-- What one round of the loop of ConsumeClaim receives: a message, the end of the channel, or the end of
-- the session.
pub data Event : Type 0 where
  message : ConsumerMessage → Event
  channel_closed session_done : Event

-- How ConsumeClaim stands: it waits for more, it has returned an error or nil, or its handler panicked.
pub data Outcome (E : Type 0) : Type 0 where
  waiting : Outcome E
  returned : Option E → Outcome E
  crashed : Outcome E

-- `stops` tells the errors that errors.Is finds to be context.Canceled or context.DeadlineExceeded, and
-- `mark` is the session's MarkMessage.
module _ {E W S : Type 0} (stops : E → Bool) (mark : ConsumerMessage → S → S) where
  abbrev pub proceed :
      (W × S → Outcome E × (W × S))
      → ConsumerMessage
      → S
      → Result E (Unit {0}) × W
      → Outcome E × (W × S)
  proceed rest m s (ok _, w) = rest (w, mark m s)
  proceed rest m s (err e, w) = if stops e then (returned (some e), (w, s)) else rest (w, s)
  proceed rest m s (panic, w) = (crashed, (w, s))

  -- ConsumeClaim, over what its rounds receive.
  unfoldable pub consume_claim : Handler E W → Context → List Event → W × S → Outcome E × (W × S)
  unfolding decoded
  consume_claim handler ctx [] w = (waiting, w)
  consume_claim handler ctx (message m ∷ events) w =
      proceed (consume_claim handler ctx events) m w.1 (handler ctx (decoded m) w.0)
  consume_claim handler ctx (channel_closed ∷ events) w = (returned none, w)
  consume_claim handler ctx (session_done ∷ events) w = (returned none, w)

-- An error of sarama's Consume.
pub data GroupError (E : Type 0) : Type 0 where
  closed_consumer_group : GroupError E
  failed : E → GroupError E

module _ {E W : Type 0} (group_consume : W → Option (GroupError E) × W)
    (ctx_err : W → Option E) where
  -- What the loop of Consume returns after one call of the group: none where it goes on.
  abbrev pub leaves : Option (GroupError E) → Option E → Option (Option E)
  leaves (some closed_consumer_group) e = some none
  leaves (some (failed e)) e' = some (some e)
  leaves none (some e) = some (some e)
  leaves none none = none

  abbrev pub go_on : (W → Option (Option E) × W) → W → Option (Option E) → Option (Option E) × W
  go_on rest w (some out) = (some out, w)
  go_on rest w none = rest w

  -- The loop of Consume, for at most so many rounds; none means that they were used up.
  unfoldable pub consume_loop : ℕ → W → Option (Option E) × W
  consume_loop zero w = (none, w)
  consume_loop (suc rounds) w =
      let (r, w') = group_consume w in go_on (consume_loop rounds) w' (leaves r (ctx_err w'))

-- consumer.Consumer, without its group, which is an argument of `consume`.
pub record Consumer (E W : Type 0) : Type 0 where
  pub topics : List String
  pub middlewares : List (Middleware E W)

module _ {E W : Type 0} where
  -- WithMiddlewares
  unfoldable pub with_middlewares : List (Middleware E W) → Consumer E W → Consumer E W
  with_middlewares mws c = record c { middlewares = c.middlewares ++ mws }

  -- The loop over the options.
  abbrev pub apply_options : List (Consumer E W → Consumer E W) → Consumer E W → Consumer E W
  apply_options [] c = c
  apply_options (opt ∷ opts) c = apply_options opts (opt c)

  -- NewConsumer
  unfoldable pub new_consumer : List String → List (Consumer E W → Consumer E W) → Consumer E W
  new_consumer topics opts = apply_options opts (record { topics = topics; middlewares = [] })

  -- Consume; `group` is the Consume of the consumer group, which calls the handler that it is given.
  unfoldable pub consume :
      (List String → Handler E W → W → Option (GroupError E) × W)
      → (W → Option E)
      → Consumer E W
      → Handler E W
      → ℕ
      → W
      → Option (Option E) × W
  consume group ctx_err c handler =
      consume_loop (group c.topics (new_group_handler handler c.middlewares)) ctx_err
