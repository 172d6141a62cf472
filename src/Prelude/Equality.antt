-- ===== src/Prelude/Equality.antt =====
-- Equality tests as an instance argument, for the keys of maps and tables.
use ops_system.Prelude.Tests.{eqb, eqb_iff, Bool-cases}
use text.Mathlib.Text
use text.Mathlib.TextEquality.{eq_iff}
use native.Mathlib.Omega.{arith}
use mathlib.Core.Bool.{Bool, true, false}
use mathlib.Core.Logic.{◌↔◌, ◌≢◌, inl, inr}
use mathlib.Core.Path.{◌≡◌, refl}
use Prim.Native.String.{String}
use Prim.Native.Nat.{ℕ}

-- a type of keys with its test
pub record Key {ℓ} (K : Type ℓ) : Type ℓ where
  pub matches : K → K → Bool
  pub matches_iff : (k j : K) → (matches k j ≡ true) ↔ (k ≡ j)

instance abbrev pub string_key : Key String
string_key = record { matches = Text.◌==◌; matches_iff = eq_iff }

instance abbrev pub nat_key : Key ℕ
nat_key = record { matches = eqb; matches_iff = eqb_iff }

infix 50 ◌==◌
abbrev pub ◌==◌ {ℓ} : {K : Type ℓ} ⦃key : Key K⦄ → K → K → Bool
◌==◌ ⦃key⦄ k j = key.matches k j

module _ {ℓ} {A : Type ℓ} ⦃e : Key A⦄ where
  pub ==_refl : (a : A) → (a == a) ≡ true
  ==_refl a = (e.matches_iff a a).1 refl

  pub ==_ne : (a b : A) → a ≢ b → (a == b) ≡ false
  ==_ne a b h = elim (Bool-cases (a == b)) [
    | inl same ↦ absurd (h ((e.matches_iff a b).0 same))
    | inr other ↦ other
  ]

  pub eq_of_== : (a b : A) → (a == b) ≡ true → a ≡ b
  eq_of_== a b = (e.matches_iff a b).0

  pub ==_comm : (a b : A) → (a == b) ≡ (b == a)
  ==_comm a b = ground (arith, e.matches_iff a b, e.matches_iff b a)
