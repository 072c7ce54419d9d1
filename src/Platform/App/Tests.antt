-- ===== src/Platform/App/Tests.antt =====
-- The end of a service at concrete resources.
use rocket_factory.Prelude.{
  ℕ, String, ◌≡◌, refl, true, false, some, List, [], ◌∷◌, ◌==◌, Result, ok, err,
}
use rocket_factory.Platform.Closer.{CloseFn, Closer}
use rocket_factory.Platform.App.{stopped, run_order, run_server}

abbrev named : String → Result ℕ (Unit {0}) → CloseFn ℕ (List String)
named n r = record { name = n; fn = λ log. (r, n ∷ log) }

abbrev registered : Closer ℕ (List String)
registered = record {
  once = false;
  funcs = named "database" (ok tt) ∷ named "broker" (err 1) ∷ named "server" (err 2) ∷ [];
}

-- The server was closed, which is error 7, and two resources fail.
run_order_run :
    run_order (λ e. e == 7) (stopped (some 7)) registered []
    ≡ (err 2, (record { once = true; funcs = [] }, "database" ∷ "broker" ∷ "server" ∷ []))
unfolding run_order run_server
run_order_run = refl
