-- ===== src/Prelude/Unary.antt =====
-- A concrete form of identifiers, which shows that what the services rely on can be met: the number
-- `u` as `u + 1` strokes.
use Prim.Native.Nat.{ℕ, zero, suc}
use Prim.Native.String.{String, count, ◌∷◌}
use text.Mathlib.TextLemmas.{length-cons}
use mathlib.Core.Path.{◌≡◌, refl, ap, ◌∙◌}
use mathlib.Core.Option.{Option, none, some}
use rocket_factory.Prelude.Uuid.{UuidCodec}

abbrev strokes : ℕ → String
strokes zero = "|"
strokes (suc n) = "|" ∷ strokes n

abbrev of_count : ℕ → Option ℕ
of_count zero = none
of_count (suc n) = some n

pub count-strokes : (n : ℕ) → count (strokes n) ≡ suc n
count-strokes zero = refl
count-strokes (suc n) = length-cons "|" (strokes n) ∙ ap suc (count-strokes n)

abbrev pub unary : UuidCodec
unary = record {
  parse = λ s. of_count (count s);
  to_string = strokes;
  parse-to_string = λ u. ap of_count (count-strokes u);
  parse_empty = refl;
}
