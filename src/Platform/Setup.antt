-- ===== src/Platform/Setup.antt =====
-- The settings of the platform's clients: Redis (platform/pkg/redis/client.go), metrics
-- (platform/pkg/metrics/option.go), logging (platform/pkg/logger/logger.go), tracing
-- (platform/pkg/tracing) and health (platform/pkg/grpc/health/health.go).
use rocket_factory.Prelude.{
  ℕ, String, ◌≡◌, refl, Bool, true, false, ◌&&◌, Bool-cases, inl, inr, Option, none, some, List, [],
  ◌∷◌, ◌++◌, str_eq, if◌then◌else◌, Result, ok, err, panic, arith,
}
use rocket_factory.Prelude.Int.{ℤ, pos, ltb_ℤ, leb_ℤ}
use rocket_factory.Prelude.Action.{Action}

-- The options of the Redis client that the platform looks at; a duration is in nanoseconds.
pub record RedisOptions : Type 0 where
  pub context_timeout_enabled : Bool
  pub dial_timeout : ℤ
  pub read_timeout : ℤ
  pub write_timeout : ℤ

abbrev second : ℕ
second = 1000000000

abbrev is_zero : ℤ → Bool
is_zero z = leb_ℤ z (pos 0) && leb_ℤ (pos 0) z

abbrev pub or_default : ℤ → ℤ → ℤ
or_default z d = if is_zero z then d else z

-- applyDefaults
unfoldable pub apply_defaults : RedisOptions → RedisOptions
apply_defaults opts = record {
  context_timeout_enabled = true;
  dial_timeout = or_default opts.dial_timeout (pos 5000000000);
  read_timeout = or_default opts.read_timeout (pos 3000000000);
  write_timeout = or_default opts.write_timeout (pos 3000000000);
}

-- Applying the defaults again changes nothing.
pub apply_defaults-twice :
    (opts : RedisOptions) → apply_defaults (apply_defaults opts) ≡ apply_defaults opts
unfolding apply_defaults
apply_defaults-twice opts = ground arith

module _ {E W C : Type 0} (connect : RedisOptions → C)
    (ping close : C → Action E W (Unit {0})) where
  abbrev connected : C → Result E (Unit {0}) × W → Result E C × W
  connected c (ok _, w) = (ok c, w)
  connected c (err e, w) = (err e, (close c w).1)
  connected c (panic, w) = (panic, w)

  -- NewClient, over the client's constructor, Ping and Close.
  unfoldable pub new_client : RedisOptions → Action E W C
  unfolding apply_defaults
  new_client opts w = let c = connect (apply_defaults opts) in connected c (ping c w)

-- options of the metrics
pub record MetricOptions (V : Type 0) : Type 0 where
  pub interval : ℤ
  pub views : List V

-- The options of the package.
pub data MetricOption (V : Type 0) : Type 0 where
  interval_option : ℤ → MetricOption V
  view_option : V → MetricOption V

module _ {V : Type 0} where
  -- WithInterval
  unfoldable pub with_interval : ℤ → MetricOptions V → MetricOptions V
  with_interval d o = if ltb_ℤ (pos 0) d then record o { interval = d } else o

  -- WithView
  unfoldable pub with_view : V → MetricOptions V → MetricOptions V
  with_view v o = record o { views = o.views ++ (v ∷ []) }

  -- The loop of Init over its options.
  unfoldable pub apply_options :
      List (MetricOptions V → MetricOptions V) → MetricOptions V → MetricOptions V
  apply_options [] o = o
  apply_options (f ∷ fs) o = apply_options fs (f o)

  -- The options that Init works with.
  unfoldable pub metric_options : List (MetricOptions V → MetricOptions V) → MetricOptions V
  unfolding apply_options
  metric_options fs = apply_options fs (record { interval = pos 10000000000; views = [] })

  abbrev IsPositive : MetricOptions V → Type 0
  IsPositive o = ltb_ℤ (pos 0) o.interval ≡ true

  with_interval-IsPositive :
      (d : ℤ) (o : MetricOptions V) → IsPositive o → IsPositive (with_interval d o)
  unfolding with_interval
  with_interval-IsPositive d o h = elim (Bool-cases (ltb_ℤ (pos 0) d)) [
    | inl e ↦ rw e e
    | inr e ↦ rw e h
  ]

  abbrev pub as_option : MetricOption V → MetricOptions V → MetricOptions V
  unfolding with_interval with_view
  as_option (interval_option d) = with_interval d
  as_option (view_option v) = with_view v

  abbrev pub as_options : List (MetricOption V) → List (MetricOptions V → MetricOptions V)
  as_options [] = []
  as_options (p ∷ ps) = as_option p ∷ as_options ps

  -- Whatever options of the package are given, the interval is positive in the end.
  pub metric_options-IsPositive :
      (ps : List (MetricOption V)) → IsPositive (metric_options (as_options ps))
  unfolding metric_options apply_options with_view as_option with_interval
  metric_options-IsPositive ps = go ps _ refl
    where
      go :
          (ps : List (MetricOption V)) (o : MetricOptions V)
          → IsPositive o
          → IsPositive (apply_options (as_options ps) o)
      go [] o h = h
      go (interval_option d ∷ ps) o h = go ps (with_interval d o) (with_interval-IsPositive d o h)
      go (view_option v ∷ ps) o h = go ps (with_view v o) h

-- A handler of records: which levels it takes, and how it is derived for attributes and for a group.
-- `K` is how far it was derived.
pub record Handler (K : Type 0) : Type 0 where
  pub enabled : K → ℤ → Bool
  pub with_attrs : List String → K → K
  pub with_group : String → K → K

-- minLevelHandler
pub record MinLevelHandler (K : Type 0) : Type 0 where
  pub handler : K
  pub level : ℤ

-- How a logger is derived.
pub data Derivation : Type 0 where
  attrs : List String → Derivation
  group : String → Derivation

module _ {K : Type 0} (h : Handler K) where
  -- Enabled, WithAttrs and WithGroup of minLevelHandler
  unfoldable pub min_level_enabled : MinLevelHandler K → ℤ → Bool
  min_level_enabled m level = leb_ℤ m.level level && h.enabled m.handler level

  unfoldable pub min_level_with_attrs : List String → MinLevelHandler K → MinLevelHandler K
  min_level_with_attrs xs m = record { handler = h.with_attrs xs m.handler; level = m.level }

  unfoldable pub min_level_with_group : String → MinLevelHandler K → MinLevelHandler K
  min_level_with_group name m = record { handler = h.with_group name m.handler; level = m.level }

  abbrev pub derive : List Derivation → MinLevelHandler K → MinLevelHandler K
  unfolding min_level_with_attrs min_level_with_group
  derive [] m = m
  derive (attrs xs ∷ ds) m = derive ds (min_level_with_attrs xs m)
  derive (group n ∷ ds) m = derive ds (min_level_with_group n m)

  -- However a logger is derived, it takes no record below the level of the first handler.
  pub min_level_enabled-derive :
      (ds : List Derivation) (m : MinLevelHandler K) (level : ℤ)
      → leb_ℤ m.level level ≡ false
      → min_level_enabled (derive ds m) level ≡ false
  unfolding min_level_enabled derive
  min_level_enabled-derive [] m level below = rw below refl
  min_level_enabled-derive (attrs xs ∷ ds) m level below =
      min_level_enabled-derive ds (min_level_with_attrs xs m) level below
  min_level_enabled-derive (group n ∷ ds) m level below =
      min_level_enabled-derive ds (min_level_with_group n m) level below

-- parseLevel; `unmarshal` is UnmarshalText of a level, and slog.LevelInfo is 0.
unfoldable pub parse_level : (String → Option ℤ) → String → ℤ
parse_level unmarshal s = elim (unmarshal s) [ some level ↦ level | none ↦ pos 0 ]

-- TraceIDUnaryServerInterceptor, over TraceIDFromContext as `trace_id` and `grpc.SetHeader`, whose error
-- is only logged.
unfoldable pub trace_id_interceptor :
    {E F W A : Type 0}
    → String
    → (String → String → Action F W (Unit {0}))
    → Action E W A
    → Action E W A
trace_id_interceptor trace_id set_header handler w =
    if str_eq trace_id "" then handler w else handler (set_header "x-trace-id" trace_id w).1

-- TraceIDFromContext, on the span context's validity and the text of its identifier.
unfoldable pub trace_id_from_context : Bool → String → String
trace_id_from_context is_valid trace_id = if is_valid then trace_id else ""

pub data ServingStatus : Type 0 where
  unknown serving not_serving : ServingStatus

module _ {E W : Type 0} where
  -- Check and Watch of the health server
  unfoldable pub health_check : String → Action E W ServingStatus
  health_check service w = (ok serving, w)

  unfoldable pub health_watch :
      (ServingStatus → Action E W (Unit {0})) → String → Action E W (Unit {0})
  health_watch send service = send serving
