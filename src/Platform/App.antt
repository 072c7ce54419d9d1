-- ===== src/Platform/App.antt =====
-- How a service runs and stops (order/internal/app/app.go, payment/internal/app/app.go): the server's
-- end or a signal, whichever is first, and then the shutdown of everything that was registered.
mod Tests
use rocket_factory.Prelude.{
  String, ◌≡◌, subst, Bool, Bool-cases, inl, inr, Option, none, some, List, [], ◌∷◌, if◌then◌else◌,
  Result, ok, err, panic,
}
use rocket_factory.Prelude.Action.{Action}
use rocket_factory.Platform.Closer.{CloseFn, Closer, first_error, as_result, close_all}

-- What the select receives: the signal, or what a goroutine sent to the channel, where nil is `none`.
pub data Stop (E : Type 0) : Type 0 where
  signal : Stop E
  stopped : Option E → Stop E

module _ {E : Type 0} where
  -- The error that Run keeps of it; `is_closed` is `errors.Is` with http.ErrServerClosed.
  unfoldable pub order_error : (E → Bool) → Stop E → Option E
  order_error is_closed signal = none
  order_error is_closed (stopped none) = none
  order_error is_closed (stopped (some e)) = if is_closed e then none else some e

  -- The services that keep every error of their server.
  unfoldable pub server_error : Stop E → Option E
  server_error signal = none
  server_error (stopped sent) = sent

  -- The error that is there already, or that of a call.
  abbrev pub or_first : Option E → Result E (Unit {0}) → Option E
  or_first (some e) r = some e
  or_first none (err e) = some e
  or_first none (ok _) = none
  or_first none panic = none

module _ {E W : Type 0} where
  abbrev pub after_shutdown :
      Option E → Result E (Unit {0}) × (Closer E W × W) → Result E (Unit {0}) × (Closer E W × W)
  after_shutdown run_err (ok _, w) = (as_result run_err, w)
  after_shutdown run_err (err e, w) =
      (as_result (some (elim run_err [ none ↦ e | some e' ↦ e' ])), w)
  after_shutdown run_err (panic, w) = (panic, w)

  -- Run of the order service after its select, and that of the payment service.
  unfoldable pub run_order :
      (E → Bool) → Stop E → Closer E W → W → Result E (Unit {0}) × (Closer E W × W)
  unfolding order_error close_all
  run_order is_closed stop c w = after_shutdown (order_error is_closed stop) (close_all c w)

  unfoldable pub run_server : Stop E → Closer E W → W → Result E (Unit {0}) × (Closer E W × W)
  unfolding server_error close_all
  run_server stop c w = after_shutdown (server_error stop) (close_all c w)

  -- The world after each function was called once, and the first error among them.
  abbrev pub each_called : List (CloseFn E W) → W → W
  each_called [] w = w
  each_called (f ∷ fs) w = each_called fs (f.fn w).1

  abbrev pub first_of : Option E → List (CloseFn E W) → W → Option E
  first_of kept [] w = kept
  first_of kept (f ∷ fs) w = first_of (or_first kept (f.fn w).0) fs (f.fn w).1

  -- The close functions do not panic.
  abbrev pub NeverPanics : CloseFn E W → Type 0
  NeverPanics f = (w : W) → ((r : Option E) × ((f.fn w).0 ≡ as_result r))
