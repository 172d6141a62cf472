-- ===== src/Words/Affix.antt =====
-- The ends of texts, and a text taken apart at its last separator.
use Prim.Native.String.{◌++◌ as append}
use Prim.Native.Char.{Char, char, code}
use text.Mathlib.TextEquality.{Char-path}
use text.Mathlib.TextLemmas.{nil-append, cons-append}
use mathlib.Core.Option.{some_inj}
use ops_system.Prelude.{
  String, ◌≡◌, refl, inl, inr, ◌↔◌, ap, sym, ◌∙◌, Option, none, some, true, arith, eqb, eqb_iff,
  Bool-cases, ◌==◌, string_key, eq_iff, ==_refl,
}
use ops_system.Words.{has_suffix, split_front, split_last}

has_suffix_sound :
    (s end : String) → has_suffix s end ≡ true → (before : String) × (s ≡ append before end)
unfolding has_suffix
has_suffix_sound String.[] end h = (String.[], (eq_iff String.[] end).0 h ∙ sym (nil-append end))
has_suffix_sound (String.◌∷◌ c s) end h = elim (Bool-cases (String.◌∷◌ c s == end)) [
  | inl same ↦ (String.[], (eq_iff (String.◌∷◌ c s) end).0 same ∙ sym (nil-append end))
  | inr other ↦
      let (before, e) = has_suffix_sound s end (ground arith) in
      (String.◌∷◌ c before, ap (String.◌∷◌ c) e ∙ sym (cons-append c before end))
]

has_suffix_refl : (s : String) → has_suffix s s ≡ true
unfolding has_suffix
has_suffix_refl String.[] = refl
has_suffix_refl (String.◌∷◌ c s) = rw (==_refl (String.◌∷◌ c s)) refl

has_suffix-append : (before end : String) → has_suffix (append before end) end ≡ true
unfolding has_suffix
has_suffix-append String.[] end = rw (nil-append end) (has_suffix_refl end)
has_suffix-append (String.◌∷◌ c before) end =
    rw (cons-append c before end) (ground (arith, has_suffix-append before end))

-- A text ends in another exactly when it is something followed by the other.
pub has_suffix_iff :
    (s end : String) → (has_suffix s end ≡ true) ↔ ((before : String) × (s ≡ append before end))
has_suffix_iff s end = (has_suffix_sound s end, λ p. rw p.1 (has_suffix-append p.0 end))

split_front_sound :
    (sep x : Char) (s : String) (o : Option (String × String)) (before after : String)
    → ((b a : String) → o ≡ some (b, a) → s ≡ append b (String.◌∷◌ sep a))
    → split_front (code sep) x s o ≡ some (before, after)
    → String.◌∷◌ x s ≡ append before (String.◌∷◌ sep after)
split_front_sound sep x s (some (b, a)) before after ih h =
    ap (String.◌∷◌ x) (ih b a refl)
    ∙ sym (cons-append x b (String.◌∷◌ sep a))
    ∙ ap (λ (p : String × String). append p.0 (String.◌∷◌ sep p.1)) (some_inj.0 h)
split_front_sound sep x s none before after ih h = elim (Bool-cases (eqb (code x) (code sep))) [
  | inl same ↦
      ap (λ (c : Char). String.◌∷◌ c s) (Char-path x sep ((eqb_iff (code x) (code sep)).0 same))
      ∙ sym (nil-append (String.◌∷◌ sep s))
      ∙ ap (λ (p : String × String). append p.0 (String.◌∷◌ sep p.1)) (some_inj.0 (rw same at h))
  | inr other ↦ absurd (none_ne (rw other at h))
]
  where
    none_ne : ◌≡◌ {A = Option (String × String)} none (some (before, after)) → ⊥
    none_ne e = ground arith

-- The two parts give the text with a separator between them.
pub split_last_sound :
    (sep : Char) (s before after : String)
    → split_last (code sep) s ≡ some (before, after)
    → s ≡ append before (String.◌∷◌ sep after)
unfolding split_last
split_last_sound sep String.[] before after h = ground arith
split_last_sound sep (String.◌∷◌ x s) before after h =
    split_front_sound sep x s (split_last (code sep) s) before after (split_last_sound sep s) h

pub underscore_front : (s : String) → append "_" s ≡ String.◌∷◌ (char 95 tt) s
underscore_front s =
    cons-append (char 95 tt) String.[] s ∙ ap (String.◌∷◌ (char 95 tt)) (nil-append s)
