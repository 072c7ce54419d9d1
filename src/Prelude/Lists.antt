-- ===== src/Prelude/Lists.antt =====
-- Lists of identifiers, and dictionaries keyed by identifiers (the source's `map[uuid.UUID]V`).
use Prim.Native.Nat.{ℕ, suc}
use mathlib.Core.Path.{◌≡◌, refl, ap, ap₂}
use mathlib.Core.Bool.{Bool, true, false, ◌||◌}
use mathlib.Core.List.{List, [], ◌∷◌, map}
use mathlib.Core.Option.{Option, none, some}
use native.Mathlib.Omega.{arith}
use rocket_factory.Prelude.Tests.{◌==◌, if◌then◌else◌}

module _ {ℓ} {A : Type ℓ} where
  abbrev pub length : List A → ℕ
  length [] = 0
  length (x ∷ xs) = suc (length xs)

  abbrev pub All {κ} : (A → Type κ) → List A → Type κ
  All P [] = Unit
  All P (x ∷ xs) = P x × All P xs

module _ {A : Type 0} {P Q : A → Type 0} where
  pub All-map : ((a : A) → P a → Q a) → (xs : List A) → All P xs → All Q xs
  All-map f [] h = tt
  All-map f (x ∷ xs) h = (f x h.0, All-map f xs h.1)

module _ {A : Type 0} {P Q R : A → Type 0} where
  pub All-map₂ : ((a : A) → P a → Q a → R a) → (xs : List A) → All P xs → All Q xs → All R xs
  All-map₂ f [] h k = tt
  All-map₂ f (x ∷ xs) h k = (f x h.0 k.0, All-map₂ f xs h.1 k.1)

module _ {A B : Type 0} {P : A → Type 0} {f g : A → B} where
  pub map-cong : ((a : A) → P a → f a ≡ g a) → (xs : List A) → All P xs → map f xs ≡ map g xs
  map-cong e [] h = refl
  map-cong e (x ∷ xs) h = ap₂ ◌∷◌ (e x h.0) (map-cong e xs h.1)

-- `for _, x := range xs { if keep(x) }`, also a SQL `WHERE`.
abbrev pub filter_by {ℓ} : {A : Type ℓ} → (A → Bool) → List A → List A
filter_by p [] = []
filter_by p (x ∷ xs) = let rest = filter_by p xs in if p x then x ∷ rest else rest

abbrev pub contains : ℕ → List ℕ → Bool
contains k [] = false
contains k (x ∷ xs) = k == x || contains k xs

-- No identifier stands twice.
abbrev pub IsDistinct : List ℕ → Type 0
IsDistinct [] = Unit
IsDistinct (x ∷ xs) = (contains x xs ≡ false) × IsDistinct xs

abbrev pub Dict {ℓ} : Type ℓ → Type ℓ
Dict V = List (ℕ × V)

module _ {ℓ} {V : Type ℓ} where
  -- `m[k]`
  abbrev pub lookup : ℕ → Dict V → Option V
  lookup k [] = none
  lookup k ((j, v) ∷ m) = if k == j then some v else lookup k m

  -- `m[k] = v`
  abbrev pub insert : ℕ → V → Dict V → Dict V
  insert k v [] = (k, v) ∷ []
  insert k v ((j, w) ∷ m) = if k == j then (k, v) ∷ m else (j, w) ∷ insert k v m

  abbrev pub keys : Dict V → List ℕ
  keys [] = []
  keys ((k, v) ∷ m) = k ∷ keys m

  abbrev pub is_some : Option V → Bool
  is_some none = false
  is_some (some _) = true

  pub contains-keys : (k : ℕ) (m : Dict V) → contains k (keys m) ≡ is_some (lookup k m)
  contains-keys k [] = refl
  contains-keys k ((j, v) ∷ m) = ground (arith, contains-keys k m)

  pub lookup-insert :
      (j k : ℕ) (v : V) (m : Dict V)
      → lookup j (insert k v m) ≡ (if j == k then some v else lookup j m)
  lookup-insert j k v [] = refl
  lookup-insert j k v ((i, w) ∷ m) = ground (arith, lookup-insert j k v m)

  pub contains-keys-insert :
      (j k : ℕ) (v : V) (m : Dict V)
      → contains j (keys (insert k v m)) ≡ (j == k || contains j (keys m))
  contains-keys-insert j k v [] = ground arith
  contains-keys-insert j k v ((i, w) ∷ m) = ground (arith, contains-keys-insert j k v m)

  pub insert-IsDistinct :
      (k : ℕ) (v : V) (m : Dict V) → IsDistinct (keys m) → IsDistinct (keys (insert k v m))
  insert-IsDistinct k v [] h = ground arith
  insert-IsDistinct k v ((i, w) ∷ m) h =
      ground (arith, insert-IsDistinct k v m h.1, contains-keys-insert i k v m)

  pub length-keys : (m : Dict V) → length (keys m) ≡ length m
  length-keys [] = refl
  length-keys (e ∷ m) = ap suc (length-keys m)
