-- ===== src/Prelude/Counting.antt =====
-- How many identifiers a list holds: the pigeonhole facts behind `len(recordByUUID) != len(UUIDs)`.
use Prim.Native.Nat.{ℕ, suc, ◌≤◌}
use mathlib.Core.Path.{◌≡◌, refl}
use mathlib.Core.Logic.{inl, inr}
use mathlib.Core.Bool.{Bool, true, false, ◌&&◌, not}
use mathlib.Core.List.{List, [], ◌∷◌}
use native.Mathlib.Omega.{arith}
use rocket_factory.Prelude.Tests.{◌==◌, if◌then◌else◌, Bool-cases}
use rocket_factory.Prelude.Lists.{length, contains, IsDistinct}

-- Every identifier of the first list stands in the second.
infix 50 ◌⊆◌
abbrev pub ◌⊆◌ : List ℕ → List ℕ → Type 0
◌⊆◌ xs ys = (v : ℕ) → contains v xs ≡ true → contains v ys ≡ true

abbrev pub is_distinct : List ℕ → Bool
is_distinct [] = true
is_distinct (x ∷ xs) = not (contains x xs) && is_distinct xs

pub IsDistinct-is_distinct : (xs : List ℕ) → is_distinct xs ≡ true → IsDistinct xs
IsDistinct-is_distinct [] h = tt
IsDistinct-is_distinct (x ∷ xs) h = (ground arith, IsDistinct-is_distinct xs (ground arith))

pub is_distinct-IsDistinct : (xs : List ℕ) → IsDistinct xs → is_distinct xs ≡ true
is_distinct-IsDistinct [] h = refl
is_distinct-IsDistinct (x ∷ xs) h = ground (arith, is_distinct-IsDistinct xs h.1)

-- Without the first occurrence of an identifier.
remove : ℕ → List ℕ → List ℕ
remove u [] = []
remove u (x ∷ xs) = let rest = remove u xs in if u == x then xs else x ∷ rest

length-remove :
    (u : ℕ) (xs : List ℕ) → contains u xs ≡ true → suc (length (remove u xs)) ≡ length xs
unfolding remove
length-remove u [] h = cc
length-remove u (x ∷ xs) h = ground (arith, length-remove u xs)

contains-remove :
    (u v : ℕ) (xs : List ℕ)
    → contains v xs ≡ true
    → (v == u) ≡ false
    → contains v (remove u xs) ≡ true
unfolding remove
contains-remove u v [] h ne = cc
contains-remove u v (x ∷ xs) h ne = ground (arith, contains-remove u v xs)

-- A list of distinct identifiers is no longer than one that holds them all.
pub length-subset : (xs ys : List ℕ) → IsDistinct xs → xs ⊆ ys → length xs ≤ length ys
length-subset [] ys d sub = omega arith
length-subset (x ∷ xs) ys d sub =
    let inside = sub x (ground arith) in
    let shorter = length-subset xs (remove x ys) d.1 (λ v h. elim (Bool-cases (v == x)) [
      | inl e ↦ ground (arith, h, d.0)
      | inr ne ↦ contains-remove x v ys (sub v (ground (arith, h))) ne
    ]) in
    omega (arith, length-remove x ys inside, shorter)

-- It is shorter where the second holds something else.
pub length-subset_missing :
    (u : ℕ) (xs ys : List ℕ)
    → IsDistinct xs
    → xs ⊆ ys
    → contains u xs ≡ false
    → contains u ys ≡ true
    → suc (length xs) ≤ length ys
length-subset_missing u xs ys d sub out inside =
    length-subset (u ∷ xs) ys (out, d)
      (λ v h. elim (Bool-cases (v == u)) [
        | inl e ↦ ground (arith, inside)
        | inr ne ↦ sub v (ground (arith, h, ne))
      ])

-- Each identifier once.
nub : List ℕ → List ℕ
nub [] = []
nub (x ∷ xs) = let rest = nub xs in if contains x xs then rest else x ∷ rest

contains-nub : (v : ℕ) (xs : List ℕ) → contains v xs ≡ true → contains v (nub xs) ≡ true
unfolding nub
contains-nub v [] h = h
contains-nub v (x ∷ xs) h = ground (arith, contains-nub v xs)

length-nub : (xs : List ℕ) → length (nub xs) ≤ length xs
unfolding nub
length-nub [] = omega arith
length-nub (x ∷ xs) = ground (arith, length-nub xs)

length-nub_strict : (xs : List ℕ) → is_distinct xs ≡ false → suc (length (nub xs)) ≤ length xs
unfolding nub
length-nub_strict [] h = cc
length-nub_strict (x ∷ xs) h = ground (arith, length-nub xs, length-nub_strict xs)

-- It is shorter where the second has a repetition.
pub length-subset_repeated :
    (xs ys : List ℕ)
    → IsDistinct xs
    → xs ⊆ ys
    → is_distinct ys ≡ false
    → suc (length xs) ≤ length ys
length-subset_repeated xs ys d sub rep = omega (
  arith,
  length-subset xs (nub ys) d (λ v h. contains-nub v ys (sub v h)),
  length-nub_strict ys rep,
)

-- Every identifier of the first list stands in the second, as a test.
abbrev pub all_in : List ℕ → List ℕ → Bool
all_in [] ys = true
all_in (x ∷ xs) ys = contains x ys && all_in xs ys

all_in-subset : (xs ys : List ℕ) → all_in xs ys ≡ true → xs ⊆ ys
all_in-subset [] ys h v e = cc
all_in-subset (x ∷ xs) ys h v e = ground (arith, all_in-subset xs ys (ground (arith, h)) v)

missing :
    (xs ys : List ℕ)
    → all_in xs ys ≡ false
    → (u : ℕ) × (contains u xs ≡ true) × (contains u ys ≡ false)
missing [] ys h = cc
missing (x ∷ xs) ys h = elim (Bool-cases (contains x ys)) [
  | inl e ↦
      let (u, inside, out) = missing xs ys (ground (arith, h, e)) in
      (u, ground (arith, inside), out)
  | inr e ↦ (x, ground arith, e)
]

-- Where `ks` holds, once each, those of `xs` that stand in `ys`, it is as long as `xs` exactly
-- when `xs` has no repetition and all of it stands in `ys`.
pub length-eq_test :
    (ks xs ys : List ℕ)
    → IsDistinct ks
    → ((v : ℕ) → contains v ks ≡ (contains v xs && contains v ys))
    → (length ks == length xs) ≡ (is_distinct xs && all_in xs ys)
length-eq_test ks xs ys d holds =
    let sub : ks ⊆ xs = λ v h. ground (arith, holds v, h) in
    elim (Bool-cases (is_distinct xs)) [
      | inr rep ↦ rw rep (ground (arith, length-subset_repeated ks xs d sub rep))
      | inl once ↦ elim (Bool-cases (all_in xs ys)) [
        | inl all ↦
            let back =
              length-subset xs ks (IsDistinct-is_distinct xs once)
                (λ v h. ground (arith, holds v, h, all_in-subset xs ys all v h)) in
            rw (once, all) (ground (arith, back, length-subset ks xs d sub))
        | inr some_missing ↦
            let (u, inside, out) = missing xs ys some_missing in
            rw (once, some_missing)
              (ground
                (arith, length-subset_missing u ks xs d sub (ground (arith, holds u, out)) inside))
      ]
    ]

all_in-cons : (xs ys : List ℕ) (y : ℕ) → all_in xs ys ≡ true → all_in xs (y ∷ ys) ≡ true
all_in-cons [] ys y h = refl
all_in-cons (x ∷ xs) ys y h = ground (arith, all_in-cons xs ys y (ground (arith, h)))

pub all_in_self : (xs : List ℕ) → all_in xs xs ≡ true
all_in_self [] = refl
all_in_self (x ∷ xs) = ground (arith, all_in-cons xs xs x (all_in_self xs))
