-- ===== src/Words.antt =====
-- What the code uses of Go's `strings` and `strconv`, by recursion on the characters of a text.
pub mod Roundtrip
pub mod Parts
pub mod Affix
use Prim.Native.Char.{Char, char, code}
use Prim.Native.Nat.{Ordering}
use Prim.Native.String.{compare}
use ops_system.Prelude.{
  ℕ, zero, suc, ◌+◌, ◌*◌, ◌-◌, ◌/◌, ◌%◌, String, ◌≡◌, refl, List, [], ◌∷◌, Option, none, some, Bool,
  true, false, ◌==◌, string_key, if◌then◌else◌, eqb, leb, ltb, ◌&&◌, ◌||◌, not,
}

-- c in front of the first word
abbrev pub onto_first : Char → List String → List String
onto_first c [] = String.◌∷◌ c String.[] ∷ []
onto_first c (w ∷ ws) = String.◌∷◌ c w ∷ ws

-- strings.Split(s, sep) for a separator of one character
unfoldable pub split : ℕ → String → List String
split sep String.[] = String.[] ∷ []
split sep (String.◌∷◌ c s) =
    let rest = split sep s in if eqb (code c) sep then String.[] ∷ rest else onto_first c rest

-- unicode.IsSpace
unfoldable pub is_space : ℕ → Bool
is_space k =
    (leb 9 k && leb k 13)
    || eqb k 32
    || eqb k 0x85
    || eqb k 0xA0
    || eqb k 0x1680
    || (leb 0x2000 k && leb k 0x200A)
    || eqb k 0x2028
    || eqb k 0x2029
    || eqb k 0x202F
    || eqb k 0x205F
    || eqb k 0x3000

-- The words of a text, and whether it begins inside one.
unfoldable pub scan_fields : String → List String × Bool
unfolding is_space
scan_fields String.[] = ([], false)
scan_fields (String.◌∷◌ c s) =
    let (words, inside) = scan_fields s in
    if is_space (code c)
    then (words, false)
    else if inside
    then (onto_first c words, true)
    else (String.◌∷◌ c String.[] ∷ words, true)

-- strings.Fields
abbrev pub fields : String → List String
fields s = (scan_fields s).0

-- strings.HasSuffix
unfoldable pub has_suffix : String → String → Bool
has_suffix String.[] end = String.[] == end
has_suffix (String.◌∷◌ c s) end = let later = has_suffix s end in String.◌∷◌ c s == end || later

-- strings.TrimSuffix
unfoldable pub trim_suffix : String → String → String
trim_suffix String.[] end = String.[]
trim_suffix (String.◌∷◌ c s) end =
    let rest = trim_suffix s end in if String.◌∷◌ c s == end then String.[] else String.◌∷◌ c rest

-- strings.HasPrefix
unfoldable pub has_prefix : String → String → Bool
has_prefix s String.[] = true
has_prefix String.[] (String.◌∷◌ d t) = false
has_prefix (String.◌∷◌ c s) (String.◌∷◌ d t) =
    let rest = has_prefix s t in eqb (code c) (code d) && rest

-- strings.Contains
unfoldable pub contains : String → String → Bool
contains String.[] part = has_prefix String.[] part
contains (String.◌∷◌ c s) part =
    let later = contains s part in has_prefix (String.◌∷◌ c s) part || later

-- c is in front of a text that is split already
abbrev pub split_front : ℕ → Char → String → Option (String × String) → Option (String × String)
split_front sep c s (some (before, after)) = some (String.◌∷◌ c before, after)
split_front sep c s none = if eqb (code c) sep then some (String.[], s) else none

-- the text before the last `sep` and the one after it
unfoldable pub split_last : ℕ → String → Option (String × String)
split_last sep String.[] = none
split_last sep (String.◌∷◌ c s) = split_front sep c s (split_last sep s)

-- strings.ReplaceAll of one character by another
unfoldable pub replace_char : ℕ → Char → String → String
replace_char old new String.[] = String.[]
replace_char old new (String.◌∷◌ c s) =
    let rest = replace_char old new s in
    if eqb (code c) old then String.◌∷◌ new rest else String.◌∷◌ c rest

-- the text order of sort.Strings
abbrev pub text_le : String → String → Bool
text_le s t = elim (compare s t) [ Ordering.gt ↦ false | _ ↦ true ]

unfoldable pub insert_text : String → List String → List String
insert_text s [] = s ∷ []
insert_text s (t ∷ ts) = let rest = insert_text s ts in if text_le s t then s ∷ t ∷ ts else t ∷ rest

-- sort.Strings: what is less comes first, and equal texts cannot be told apart
unfoldable pub sort_strings : List String → List String
unfolding insert_text
sort_strings [] = []
sort_strings (s ∷ ss) = insert_text s (sort_strings ss)

-- the digit of a number below ten
abbrev pub digit : ℕ → Char
digit zero = char 48 tt
digit (suc zero) = char 49 tt
digit (suc (suc zero)) = char 50 tt
digit (suc (suc (suc zero))) = char 51 tt
digit (suc (suc (suc (suc zero)))) = char 52 tt
digit (suc (suc (suc (suc (suc zero))))) = char 53 tt
digit (suc (suc (suc (suc (suc (suc zero)))))) = char 54 tt
digit (suc (suc (suc (suc (suc (suc (suc zero))))))) = char 55 tt
digit (suc (suc (suc (suc (suc (suc (suc (suc zero)))))))) = char 56 tt
digit (suc (suc (suc (suc (suc (suc (suc (suc (suc n))))))))) = char 57 tt

-- the digits of n in front of a text; more fuel than n is enough
unfoldable pub show_digits : ℕ → ℕ → String → String
show_digits zero n s = s
show_digits (suc fuel) n s = elim (n / 10) [
  | zero ↦ String.◌∷◌ (digit (n % 10)) s
  | suc k ↦ show_digits fuel (suc k) (String.◌∷◌ (digit (n % 10)) s)
]

-- strconv.Itoa of a number that is not negative
unfoldable pub itoa : ℕ → String
unfolding show_digits
itoa n = show_digits (suc n) n String.[]

unfoldable pub digits_value : ℕ → String → Option ℕ
digits_value n String.[] = some n
digits_value n (String.◌∷◌ c s) =
    let rest = digits_value (10 * n + (code c - 48)) s in
    if leb 48 (code c) && leb (code c) 57 then rest else none

-- 2 ^ 63 - 1
abbrev pub max_int : ℕ
max_int = 9223372036854775807

-- strconv.Atoi stops at the largest number, and its result is 0 with an error
abbrev pub in_range : Option ℕ → ℕ
in_range none = 0
in_range (some n) = if leb n max_int then n else max_int

-- The number of strconv.Atoi, 0 for a negative one.
unfoldable pub atoi : String → ℕ
unfolding digits_value
atoi String.[] = 0
atoi (String.◌∷◌ c s) =
    if eqb (code c) 45
    then 0
    else if eqb (code c) 43
    then in_range (digits_value 0 s)
    else in_range (digits_value 0 (String.◌∷◌ c s))
