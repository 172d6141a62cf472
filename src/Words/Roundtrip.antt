-- ===== src/Words/Roundtrip.antt =====
-- A number that is printed is read again, and the words of a command line are the words that were
-- joined.
use Prim.Native.Char.{code}
use ops_system.Prelude.{
  ℕ, zero, suc, ◌+◌, ◌*◌, ◌/◌, ◌%◌, ◌<◌, ◌≤◌, String, ◌≡◌, refl, ◌∙◌, ap, some, arith, le→leb,
}
use ops_system.Words.{digit, show_digits, itoa, digits_value, atoi, max_int}

code-digit : (d : ℕ) → d < 10 → code (digit d) ≡ 48 + d
code-digit zero h = refl
code-digit (suc zero) h = refl
code-digit (suc (suc zero)) h = refl
code-digit (suc (suc (suc zero))) h = refl
code-digit (suc (suc (suc (suc zero)))) h = refl
code-digit (suc (suc (suc (suc (suc zero))))) h = refl
code-digit (suc (suc (suc (suc (suc (suc zero)))))) h = refl
code-digit (suc (suc (suc (suc (suc (suc (suc zero))))))) h = refl
code-digit (suc (suc (suc (suc (suc (suc (suc (suc zero)))))))) h = refl
code-digit (suc (suc (suc (suc (suc (suc (suc (suc (suc n))))))))) h = omega arith

digits_value-digit :
    (n d : ℕ) (s : String)
    → d < 10
    → digits_value n (String.◌∷◌ (digit d) s) ≡ digits_value (10 * n + d) s
unfolding digits_value
digits_value-digit n d s h =
    rw (code-digit d h, le→leb 48 (48 + d) (omega arith), le→leb (48 + d) 57 (omega arith))
      (ap (λ (m : ℕ). digits_value (10 * n + m) s) (omega arith))

digits_value-last :
    (n q : ℕ) (s : String)
    → n / 10 ≡ q
    → digits_value q (String.◌∷◌ (digit (n % 10)) s) ≡ digits_value n s
digits_value-last n q s e =
    digits_value-digit q (n % 10) s (omega arith) ∙ ap (λ (m : ℕ). digits_value m s) (omega arith)

digits_value-show_digits :
    (fuel n : ℕ) (s : String) → n < fuel → digits_value 0 (show_digits fuel n s) ≡ digits_value n s
unfolding show_digits
digits_value-show_digits zero n s h = absurd (omega arith)
digits_value-show_digits (suc fuel) n s h =
    by_quotient (n / 10) refl (digits_value-show_digits fuel)
  where
    by_quotient :
        (k : ℕ)
        → n / 10 ≡ k
        → ((m : ℕ) (t : String)
            → m < fuel
            → digits_value 0 (show_digits fuel m t) ≡ digits_value m t)
        → digits_value 0 (show_digits (suc fuel) n s) ≡ digits_value n s
    by_quotient zero e ih = rw (e, show_digits) (digits_value-last n 0 s e)
    by_quotient (suc k) e ih =
        rw (e, show_digits)
          (ih (suc k) (String.◌∷◌ (digit (n % 10)) s) (omega arith)
            ∙ digits_value-last n (suc k) s e)

atoi-digits : (s : String) (n : ℕ) → digits_value 0 s ≡ some n → n ≤ max_int → atoi s ≡ n
unfolding atoi digits_value
atoi-digits String.[] n h k = ground arith
atoi-digits (String.◌∷◌ c s) n h k = ground arith

-- A number that is not negative and fits in an int is printed as a text that is read as that number.
pub atoi-itoa : (n : ℕ) → n ≤ max_int → atoi (itoa n) ≡ n
unfolding itoa digits_value
atoi-itoa n h =
    atoi-digits (itoa n) n (digits_value-show_digits (suc n) n String.[] (omega arith)) h
