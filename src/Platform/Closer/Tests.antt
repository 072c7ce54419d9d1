-- ===== src/Platform/Closer/Tests.antt =====
-- The theorems on the shutdown at concrete resources.
use rocket_factory.Prelude.{ℕ, String, ◌≡◌, refl, true, List, [], ◌∷◌, ok, err}
use rocket_factory.Prelude.Action.{Action}
use rocket_factory.Platform.Closer.{Closer, new_closer, add, close_all}

-- A resource that notes that it was closed, the latest first.
abbrev closing : String → Action ℕ (List String) (Unit {0})
closing n log = (ok tt, n ∷ log)

-- One that fails then.
abbrev failing : String → Action ℕ (List String) (Unit {0})
failing n log = (err 1, n ∷ log)

abbrev two : Closer ℕ (List String)
two = add "server" (failing "server") (add "database" (closing "database") new_closer)

close_all_run :
    close_all two [] ≡ (err 1, (record { once = true; funcs = [] }, "database" ∷ "server" ∷ []))
unfolding close_all add new_closer
close_all_run = refl
