-- ===== src/Prelude/Action.antt =====
-- A Go method that changes a world and returns `(A, error)`. What was written before an error
-- stays written, so the world comes back beside the error too.
use mathlib.Core.Path.{◌≡◌, refl}
use mathlib.Core.Option.{Option, none, some}
use rocket_factory.Prelude.Results.{Result, ok, err, panic}

abbrev pub Action : Type 0 → Type 0 → Type 0 → Type 0
Action E W A = W → Result E A × W

module _ {E W A : Type 0} where
  -- A computation that leaves the world alone.
  abbrev pub lift : Result E A → Action E W A
  lift r w = (r, w)

  abbrev pub pure : A → Action E W A
  pure a w = (ok a, w)

  abbrev pub raise : E → Action E W A
  raise e w = (err e, w)

module _ {E W A B : Type 0} where
  abbrev pub continue : Result E A → (A → Action E W B) → Action E W B
  continue (ok a) f w = f a w
  continue (err e) f w = (err e, w)
  continue panic f w = (panic, w)

  infixl 5 ◌>>=◌ ◌>>◌
  abbrev pub ◌>>=◌ : Action E W A → (A → Action E W B) → Action E W B
  ◌>>=◌ m f w = let (r, w') = m w in continue r f w'

  abbrev pub ◌>>◌ : Action E W A → Action E W B → Action E W B
  ◌>>◌ m k = m >>= λ _. k

-- A fault that the environment may raise instead of the next step.
abbrev pub fail_if : {E W : Type 0} → Option E → Action E W (Unit {0})
fail_if none w = (ok tt, w)
fail_if (some e) w = (err e, w)

-- What holds of the result and of the world after a call, by how it ended.
abbrev pub OnOk : {E W A : Type 0} → (A → W → Type 0) → Result E A × W → Type 0
OnOk P (ok a, w) = P a w
OnOk P (err _, w) = Unit
OnOk P (panic, w) = Unit

module _ {E W A B : Type 0} where
  -- Inversion of what follows a step without error.
  pub continue-eq-ok :
      (r : Result E A) (f : A → Action E W B) (w w' : W) {b : B}
      → continue r f w ≡ (ok b, w')
      → (a : A) × (r ≡ ok a) × (f a w ≡ (ok b, w'))
  continue-eq-ok panic f w w' h = cc
  continue-eq-ok (err e) f w w' h = cc
  continue-eq-ok (ok a) f w w' h = (a, refl, h)

  -- Inversion of a block without error: its first step had none, and the rest went on from there.
  pub >>=-eq-ok :
      (m : Action E W A) (f : A → Action E W B) (w w' : W) {b : B}
      → (m >>= f) w ≡ (ok b, w')
      → (a : A) × ((m w).0 ≡ ok a) × (f a (m w).1 ≡ (ok b, w'))
  >>=-eq-ok m f w w' h = continue-eq-ok (m w).0 f (m w).1 w' h

-- A call that has only the second part of the world, such as one of another service.
abbrev pub outside : {E D X A : Type 0} → Action E X A → Action E (D × X) A
outside m w = let (r, x) = m w.1 in (r, (w.0, x))

-- A call that has only the first part of the world, its database.
abbrev pub inside : {E D X A : Type 0} → Action E D A → Action E (D × X) A
inside m w = let (r, d) = m w.0 in (r, (d, w.1))

-- A block that went on after a possible fault had none.
pub after_fault :
    {E W B : Type 0} (o : Option E) (k : Action E W B) (w w' : W) {b : B}
    → (fail_if o >> k) w ≡ (ok b, w')
    → k w ≡ (ok b, w')
after_fault none k w w' h = h
after_fault (some e) k w w' h = cc

-- A call that keeps a property of the world, however it ends.
abbrev pub Keeps : {E W A : Type 0} → (W → Type 0) → Action E W A → Type 0
Keeps P m = (w : _) → P w → P (m w).1

module _ {E W A B : Type 0} (P : W → Type 0) where
  continue-Keeps :
      (r : Result E A) (f : A → Action E W B) (w : W)
      → ((a : A) → Keeps P (f a))
      → P w
      → P (continue r f w).1
  continue-Keeps (ok a) f w keep p = keep a w p
  continue-Keeps (err e) f w keep p = p
  continue-Keeps panic f w keep p = p

  -- A block keeps what its steps keep.
  pub >>=-Keeps :
      (m : Action E W A) (f : A → Action E W B)
      → Keeps P m
      → ((a : A) → Keeps P (f a))
      → Keeps P (m >>= f)
  >>=-Keeps m f first rest w p = continue-Keeps (m w).0 f (m w).1 rest (first w p)
