-- ===== src/Platform/Closer.antt =====
-- The graceful shutdown (platform/pkg/closer/closer.go). A closer is used under its mutex, so one call
-- of it is a step.
pub mod Shutdown
mod Tests
use mathlib.Core.List.{reverse}
use rocket_factory.Prelude.{
  ℕ, String, Bool, true, false, Option, none, some, List, [], ◌∷◌, ◌++◌, if◌then◌else◌, Result, ok,
  err, panic,
}
use rocket_factory.Prelude.Action.{Action}

-- closeFn
pub record CloseFn (E W : Type 0) : Type 0 where
  pub name : String
  pub fn : Action E W (Unit {0})

-- closer; `once` is whether the work of its sync.Once has been started.
pub record Closer (E W : Type 0) : Type 0 where
  pub once : Bool
  pub funcs : List (CloseFn E W)

module _ {E : Type 0} where
  -- The result that is kept: the first error.
  abbrev pub first_error : Option E → E → Option E
  first_error none e = some e
  first_error (some e) e' = some e

  -- What CloseAll returns with the error that was kept.
  abbrev pub as_result : Option E → Result E (Unit {0})
  as_result none = ok tt
  as_result (some e) = err e

module _ {E W : Type 0} where
  -- newCloser
  unfoldable pub new_closer : Closer E W
  new_closer = record { once = false; funcs = [] }

  -- Add
  unfoldable pub add : String → Action E W (Unit {0}) → Closer E W → Closer E W
  add name f c = record c { funcs = c.funcs ++ (record { name = name; fn = f } ∷ []) }

  abbrev pub closed_with :
      (Option E → Action E W (Unit {0}))
      → Option E
      → Result E (Unit {0}) × W
      → Result E (Unit {0}) × W
  closed_with rest result (ok _, w) = rest result w
  closed_with rest result (err e, w) = rest (first_error result e) w
  closed_with rest result (panic, w) = (panic, w)

  -- The loop of CloseAll, over the functions from the last to the first.
  abbrev pub close_each : List (CloseFn E W) → Option E → Action E W (Unit {0})
  close_each [] result w = (as_result result, w)
  close_each (f ∷ fs) result w = closed_with (close_each fs) result (f.fn w)

  -- CloseAll
  unfoldable pub close_all : Closer E W → W → Result E (Unit {0}) × (Closer E W × W)
  close_all c w =
      if c.once
      then (ok tt, (c, w))
      else (let (result, w') = close_each (reverse c.funcs) none w in
          (result, (record { once = true; funcs = [] }, w')))
