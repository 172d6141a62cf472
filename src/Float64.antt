-- ===== src/Float64.antt =====
-- float64 as Go holds it: the 64 bits of the IEEE 754 value, as a number below 2 ^ 64.
use ops_system.Prelude.{
  ℕ, zero, suc, ◌+◌, ◌-◌, ◌*◌, ◌/◌, ◌%◌, ◌^◌, ◌≡◌, refl, ◌⊎◌, Bool, true, false, not, ◌&&◌, ◌||◌,
  arith, ltb, leb, eqb, if◌then◌else◌,
}

abbrev pub Float64 : Type 0
Float64 = ℕ

abbrev sign_bit : ℕ
sign_bit = 0x8000000000000000

abbrev infinity : ℕ
infinity = 0x7ff0000000000000

abbrev pub float_zero : Float64
float_zero = 0

abbrev pub float_one : Float64
float_one = 0x3ff0000000000000

abbrev pub not_a_number : Float64
not_a_number = 0x7ff8000000000001

-- the value without its sign
unfoldable pub magnitude : Float64 → ℕ
magnitude x = x % sign_bit

is_negative : Float64 → Bool
is_negative x = leb sign_bit x

unfoldable pub is_nan : Float64 → Bool
unfolding magnitude
is_nan x = ltb infinity (magnitude x)

-- x < y: false at a NaN; the two zeros are equal
unfoldable pub float_lt : Float64 → Float64 → Bool
unfolding is_nan is_negative magnitude
float_lt x y =
    not (is_nan x)
    && not (is_nan y)
    && (if is_negative x
        then (if is_negative y
            then ltb (magnitude y) (magnitude x)
            else not (eqb (magnitude x) 0 && eqb (magnitude y) 0))
        else (if is_negative y then false else ltb (magnitude x) (magnitude y)))

-- x > y
abbrev pub float_gt : Float64 → Float64 → Bool
float_gt x y = float_lt y x

-- floor(log2 n) for 0 < n < 2 ^ fuel
log2 : ℕ → ℕ → ℕ
log2 zero n = 0
log2 (suc fuel) n = let rest = log2 fuel (n / 2) in if ltb n 2 then 0 else suc rest

-- float64(n) at an uint64: exact below 2 ^ 53, to nearest, ties to even, above
unfoldable pub of_uint64 : ℕ → Float64
unfolding log2
of_uint64 n =
    let e = log2 64 n in
    let unit = 2 ^ (e - 52) in
    let high = n / unit in
    let low = n % unit in
    let up = ltb unit (2 * low) || (eqb unit (2 * low) && eqb (high % 2) 1) in
    if eqb n 0
    then 0
    else if leb e 52
    then (e + 1023) * 2 ^ 52 + (n - 2 ^ e) * 2 ^ (52 - e)
    else (e + 1023) * 2 ^ 52 + (high - 2 ^ 52) + (if up then 1 else 0)

pub float_lt_asymm : (x y : Float64) → float_lt x y ≡ true → float_lt y x ≡ false
unfolding float_lt
float_lt_asymm x y h = ground arith

-- A comparison with a NaN fails, on either side.
pub float_lt_nan : (x y : Float64) → (is_nan x ≡ true) ⊎ (is_nan y ≡ true) → float_lt x y ≡ false
unfolding float_lt
float_lt_nan x y h = ground arith

three : of_uint64 3 ≡ 0x4008000000000000
unfolding of_uint64
three = refl

ties_to_even : of_uint64 0x20000000000003 ≡ 0x4340000000000002
unfolding of_uint64
ties_to_even = refl
