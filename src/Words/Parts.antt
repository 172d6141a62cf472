-- ===== src/Words/Parts.antt =====
-- A part of a text that is split at a separator is contained in the text.
use Prim.Native.Char.{Char, code}
use ops_system.Prelude.{
  ℕ, String, ◌≡◌, refl, ◌⊎◌, inl, inr, List, [], ◌∷◌, true, arith, eqb, eqb_iff, string_key, eq_iff,
  Bool-cases, subst,
}
use ops_system.Words.{onto_first, split, has_prefix, contains}
use ops_system.Disk.Listing.{listed}

-- the first part of a text
abbrev first_of : List String → String
first_of [] = ""
first_of (w ∷ ws) = w

abbrev others_of : List String → List String
others_of [] = []
others_of (w ∷ ws) = ws

first_of-onto_first :
    (c : Char) (ws : List String) → first_of (onto_first c ws) ≡ String.◌∷◌ c (first_of ws)
first_of-onto_first c [] = refl
first_of-onto_first c (w ∷ ws) = refl

others_of-onto_first : (c : Char) (ws : List String) → others_of (onto_first c ws) ≡ others_of ws
others_of-onto_first c [] = refl
others_of-onto_first c (w ∷ ws) = refl

has_prefix-first_of : (sep : ℕ) (s : String) → has_prefix s (first_of (split sep s)) ≡ true
unfolding split has_prefix
has_prefix-first_of sep String.[] = refl
has_prefix-first_of sep (String.◌∷◌ c s) = elim (Bool-cases (eqb (code c) sep)) [
  | inl cut ↦ rw cut refl
  | inr on ↦
      rw (on, first_of-onto_first c (split sep s))
        (ground (arith, eqb_iff (code c) (code c), has_prefix-first_of sep s))
]

contains-first : (s part : String) → has_prefix s part ≡ true → contains s part ≡ true
unfolding contains
contains-first String.[] part h = h
contains-first (String.◌∷◌ c s) part h = rw h refl

contains-later :
    (c : Char) (s part : String) → contains s part ≡ true → contains (String.◌∷◌ c s) part ≡ true
unfolding contains
contains-later c s part h = ground (arith, h)

listed_cases :
    (part : String) (ws : List String)
    → listed part ws ≡ true
    → (first_of ws ≡ part) ⊎ (listed part (others_of ws) ≡ true)
listed_cases part [] h = ground arith
listed_cases part (w ∷ ws) h = ground (arith, eq_iff w part)

contains_by_cases :
    (sep : ℕ) (s part : String)
    → (listed part (others_of (split sep s)) ≡ true → contains s part ≡ true)
    → listed part (split sep s) ≡ true
    → contains s part ≡ true
contains_by_cases sep s part others h = elim (listed_cases part (split sep s) h) [
  | inl first ↦
      contains-first s part
        (subst (λ (w : String). has_prefix s w ≡ true) first (has_prefix-first_of sep s))
  | inr later ↦ others later
]

-- the parts after the first one
contains-others :
    (sep : ℕ) (s part : String)
    → listed part (others_of (split sep s)) ≡ true
    → contains s part ≡ true
unfolding split
contains-others sep String.[] part h = ground arith
contains-others sep (String.◌∷◌ c s) part h = elim (Bool-cases (eqb (code c) sep)) [
  | inl cut ↦
      contains-later c s part
        (contains_by_cases sep s part (contains-others sep s part) (rw cut at h))
  | inr on ↦ contains-later c s part (
      contains-others sep s part (
        subst (λ (ws : List String). listed part ws ≡ true) (others_of-onto_first c (split sep s))
          (rw on at h)))
]

-- Every part of a text that is split is contained in the text.
pub contains-split :
    (sep : ℕ) (s part : String) → listed part (split sep s) ≡ true → contains s part ≡ true
contains-split sep s part h = contains_by_cases sep s part (contains-others sep s part) h
