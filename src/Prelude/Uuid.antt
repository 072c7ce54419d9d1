-- ===== src/Prelude/Uuid.antt =====
-- Identifiers. A UUID is its 128-bit value as a number, and `uuid.Nil` is zero. The text form is
-- that of github.com/google/uuid, which is a parameter.
use Prim.Native.Nat.{ℕ}
use Prim.Native.String.{String}
use mathlib.Core.Path.{◌≡◌, ap}
use mathlib.Core.Bool.{false}
use mathlib.Core.Logic.{inl, inr}
use mathlib.Core.Option.{Option, none, some}
use native.Mathlib.Omega.{arith}
use text.Mathlib.Text.{◌==◌ as str_eq}
use text.Mathlib.TextEquality.{eq_iff}
use rocket_factory.Prelude.Tests.{Bool-cases}

abbrev pub nil_uuid : ℕ
nil_uuid = 0

-- `uuid.Parse` and `UUID.String`, with the documented facts that the services rely on.
pub record UuidCodec : Type 0 where
  pub parse : String → Option ℕ
  pub to_string : ℕ → String
  pub parse-to_string : (u : ℕ) → parse (to_string u) ≡ some u
  pub parse_empty : parse "" ≡ none

module _ (codec : UuidCodec) where
  -- No identifier is printed as the empty text.
  pub to_string_nonempty : (u : ℕ) → str_eq (codec.to_string u) "" ≡ false
  to_string_nonempty u = elim (Bool-cases (str_eq (codec.to_string u) "")) [
    | inr e ↦ e
    | inl e ↦
        let blank : codec.to_string u ≡ "" = ground (arith, e, eq_iff (codec.to_string u) "") in
        cc (codec.parse-to_string u, codec.parse_empty, ap codec.parse blank)
  ]

  -- Two identifiers with the same text are the same.
  pub to_string_inj : (u v : ℕ) → codec.to_string u ≡ codec.to_string v → u ≡ v
  to_string_inj u v e = cc (codec.parse-to_string u, codec.parse-to_string v, ap codec.parse e)
