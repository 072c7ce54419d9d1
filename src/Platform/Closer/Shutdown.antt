-- ===== src/Platform/Closer/Shutdown.antt =====
-- What a shutdown has done (platform/pkg/closer/closer.go).
use mathlib.Core.List.{reverse, reverse-append}
use rocket_factory.Prelude.{
  String, ◌≡◌, refl, sym, ap, ◌∙◌, true, false, Bool-cases, inl, inr, none, some, List, [], ◌∷◌,
  Result, ok, err, panic,
}
use rocket_factory.Prelude.Action.{Action}
use rocket_factory.Platform.Closer.{CloseFn, Closer, add, close_all, close_each, closed_with}

module _ {E : Type 0} where
  -- The answer of the rest of a shutdown in which an error was met before: that error, unless the rest
  -- panics.
  abbrev pub after_error : {X : Type 0} → E → Result E (Unit {0}) × X → Result E (Unit {0}) × X
  after_error e (panic, w) = (panic, w)
  after_error e (ok _, w) = (err e, w)
  after_error e (err _, w) = (err e, w)

  after_errors :
      {X : Type 0} (e e' : E) (q : Result E (Unit {0}) × X)
      → after_error e (after_error e' q) ≡ after_error e q
  after_errors e e' (panic, w) = refl
  after_errors e e' (ok _, w) = refl
  after_errors e e' (err _, w) = refl

module _ {E W : Type 0} where
  -- An error that was kept is what the loop returns, whatever the other functions do.
  close_each-after_error :
      (fs : List (CloseFn E W)) (e : E) (w : W)
      → close_each fs (some e) w ≡ after_error e (close_each fs none w)
  close_each-after_error [] e w = refl
  close_each-after_error (f ∷ fs) e w = by_answer (f.fn w) (close_each-after_error fs)
    where
      by_answer :
          (q : Result E (Unit {0}) × W)
          → ((e' : E) (v : W) → close_each fs (some e') v ≡ after_error e' (close_each fs none v))
          → closed_with (close_each fs) (some e) q
            ≡ after_error e (closed_with (close_each fs) none q)
      by_answer (ok _, v) ih = ih e v
      by_answer (panic, v) ih = refl
      by_answer (err e', v) ih =
          ih e v ∙ sym (ap (after_error e) (ih e' v) ∙ after_errors e e' (close_each fs none v))

  abbrev pub closed : Closer E W
  closed = record { once = true; funcs = [] }

  -- A shutdown of one more resource: it is closed first, and then the others as without it.
  abbrev pub close_before :
      Closer E W → Result E (Unit {0}) × W → Result E (Unit {0}) × (Closer E W × W)
  close_before c (ok _, w) = close_all c w
  close_before c (err e, w) = after_error e (close_all c w)
  close_before c (panic, w) = (panic, (closed, w))

  with_closer :
      (e : E) (q : Result E (Unit {0}) × W)
      → ◌≡◌ {A = Result E (Unit {0}) × (Closer E W × W)}
          ((after_error e q).0, (closed, (after_error e q).1))
          (after_error e (q.0, (closed, q.1)))
  with_closer e (ok _, w) = refl
  with_closer e (err _, w) = refl
  with_closer e (panic, w) = refl

  before_rest :
      (fs : List (CloseFn E W)) (q : Result E (Unit {0}) × W)
      → ◌≡◌ {A = Result E (Unit {0}) × (Closer E W × W)}
          (
            (closed_with (close_each (reverse fs)) none q).0,
            (closed, (closed_with (close_each (reverse fs)) none q).1),
          )
          (close_before (record { once = false; funcs = fs }) q)
  unfolding close_all
  before_rest fs (ok _, v) = refl
  before_rest fs (panic, v) = refl
  before_rest fs (err e, v) =
      ap (λ p. (p.0, (closed, p.1))) (close_each-after_error (reverse fs) e v)
      ∙ with_closer e (close_each (reverse fs) none v)

  -- The function that was added last runs first, and once; then the shutdown goes on as it would
  -- have without it, also where the function failed. The result is the first error in that order. A
  -- panic ends the shutdown.
  pub close_all-add :
      (name : String) (f : Action E W (Unit {0})) (c : Closer E W) (w : W)
      → c.once ≡ false
      → close_all (add name f c) w ≡ close_before c (f w)
  unfolding close_all add
  close_all-add name f c w open_yet =
      let order = reverse-append c.funcs (record { name = name; fn = f } ∷ []) in
      rw (open_yet, order) (before_rest c.funcs (f w))

  -- A shutdown leaves nothing to do: after it, whatever is added, another one calls no function,
  -- leaves the world alone and returns nil.
  pub close_all-again :
      (c : Closer E W) (w : W) (name : String) (f : Action E W (Unit {0}))
      → close_all (add name f (close_all c w).1.0) (close_all c w).1.1
        ≡ (ok tt, (add name f (close_all c w).1.0, (close_all c w).1.1))
  unfolding close_all add
  close_all-again c w name f = elim (Bool-cases c.once) [
    | inl done ↦ rw done refl
    | inr first ↦ rw first refl
  ]
