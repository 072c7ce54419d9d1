-- ===== src/Prelude/Results.antt =====
-- A Go call that returns `(A, error)`. An error is known by the sentinel at the end of its `%w`
-- chain, which is all that `errors.Is` tells apart; `panic` is a run-time panic.
use mathlib.Core.Path.{◌≡◌, refl}
use mathlib.Core.Bool.{Bool, true, false}
use mathlib.Core.List.{List, [], ◌∷◌}

pub data Result (E : Type 0) (A : Type 0) : Type 0 where
  ok : A → Result E A
  err : E → Result E A
  panic : Result E A

module _ {E A B : Type 0} where
  infixl 5 ◌>>=◌
  abbrev pub ◌>>=◌ : Result E A → (A → Result E B) → Result E B
  ok a >>= f = f a
  err e >>= f = err e
  panic >>= f = panic

  -- A chain without error got a value from its first step and went on from it.
  pub >>=-eq-ok :
      {last : B} (step : Result E A) (next : A → Result E B)
      → (step >>= next) ≡ ok last
      → (value : A) × (step ≡ ok value) × (next value ≡ ok last)
  >>=-eq-ok panic next h = cc
  >>=-eq-ok (err e) next h = cc
  >>=-eq-ok (ok value) next h = (value, refl, h)

-- A loop that appends the converted elements and stops at the first error.
abbrev pub map_result : {E A B : Type 0} → (A → Result E B) → List A → Result E (List B)
map_result f [] = ok []
map_result f (x ∷ xs) = let rest = map_result f xs in do y ← f x; ys ← rest; ok (y ∷ ys)

abbrev pub guard : {E : Type 0} → Bool → E → Result E (Unit {0})
guard true e = ok tt
guard false e = err e

-- Inversion of a loop that met no error.
pub map_result-cons :
    {E A B : Type 0} (f : A → Result E B) (x : A) (xs : List A) {ys : List B}
    → map_result f (x ∷ xs) ≡ ok ys
    → (y : B) × (rest : List B) × (f x ≡ ok y) × (map_result f xs ≡ ok rest) × (ys ≡ y ∷ rest)
map_result-cons f x xs h =
    let (y, first, tail) = >>=-eq-ok (f x) (λ y. map_result f xs >>= λ ys. ok (y ∷ ys)) h in
    let (rest, others, last) = >>=-eq-ok (map_result f xs) (λ ys. ok (y ∷ ys)) tail in
    (y, rest, first, others, cc last)
