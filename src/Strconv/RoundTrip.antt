-- ===== src/Strconv/RoundTrip.antt =====
-- Atoi on the texts that Itoa writes.
use Prim.Native.Char.{code}
use learning_crossplane_e2e.Prelude.{
  ℕ, zero, suc, ◌+◌, ◌-◌, ◌*◌, ◌/◌, ◌%◌, ◌<◌, ◌≤◌, String, ◌≡◌, refl, ap, ◌∙◌, arith, false, inl,
  inr, Bool-cases, ltb, leb, ◌||◌,
}
use learning_crossplane_e2e.Strconv.{
  word_mod, sign_bit, negate, number, scan, parse_uint, non_negative, negative, atoi, digit_char,
  decimal, itoa,
}

code_digit : (d : ℕ) → d < 10 → code (digit_char d) ≡ b'0' + d
code_digit zero h = refl
code_digit (suc zero) h = refl
code_digit (suc (suc zero)) h = refl
code_digit (suc (suc (suc zero))) h = refl
code_digit (suc (suc (suc (suc zero)))) h = refl
code_digit (suc (suc (suc (suc (suc zero))))) h = refl
code_digit (suc (suc (suc (suc (suc (suc zero)))))) h = refl
code_digit (suc (suc (suc (suc (suc (suc (suc zero))))))) h = refl
code_digit (suc (suc (suc (suc (suc (suc (suc (suc zero)))))))) h = refl
code_digit (suc (suc (suc (suc (suc (suc (suc (suc (suc zero))))))))) h = refl
code_digit (suc (suc (suc (suc (suc (suc (suc (suc (suc (suc d)))))))))) h = absurd (omega arith)

scan_digit :
    (n d m : ℕ) (rest : String)
    → d < 10
    → m < word_mod
    → m ≡ n * 10 + d
    → scan n (String.◌∷◌ (digit_char d) rest) ≡ scan m rest
unfolding scan
scan_digit n d m rest hd fits e =
    let is_digit : (ltb (b'0' + d) b'0' || ltb b'9' (b'0' + d)) ≡ false = ground arith in
    let below_cutoff : leb (word_mod / 10 + 1) n ≡ false = ground arith in
    let value : n * 10 + (b'0' + d - b'0') ≡ m = omega arith in
    let in_range : leb word_mod m ≡ false = ground arith in
    rw (code_digit d hd, is_digit, below_cutoff, value, in_range)

scan-decimal :
    (fuel n : ℕ) (rest : String)
    → n ≤ fuel
    → n < word_mod
    → scan 0 (decimal fuel n rest) ≡ scan n rest
unfolding decimal
scan-decimal zero n rest h fits = scan_digit 0 n n rest (omega arith) fits (omega arith)
scan-decimal (suc fuel) n rest h fits = elim (Bool-cases (ltb n 10)) [
  | inl small ↦ rw small (scan_digit 0 n n rest (ground arith) fits (omega arith))
  | inr large ↦ rw large (
      scan-decimal fuel (n / 10) _ (ground arith) (omega arith)
      ∙ scan_digit (n / 10) (n % 10) n rest (omega arith) fits (omega arith))
]

-- Decimal text begins with a digit, so it is no sign and not empty.
abbrev BeginsWithDigit : String → Type 0
BeginsWithDigit String.[] = ⊥
BeginsWithDigit (String.◌∷◌ c s) = (b'0' ≤ code c) × (code c ≤ b'9')

digit_begins : (d : ℕ) (rest : String) → d < 10 → BeginsWithDigit (String.◌∷◌ (digit_char d) rest)
digit_begins d rest h = rw (code_digit d h) (omega arith)

decimal_begins : (fuel n : ℕ) (rest : String) → n ≤ fuel → BeginsWithDigit (decimal fuel n rest)
unfolding decimal
decimal_begins zero n rest h = digit_begins n rest (omega arith)
decimal_begins (suc fuel) n rest h = elim (Bool-cases (ltb n 10)) [
  | inl small ↦ rw small (digit_begins n rest (ground arith))
  | inr large ↦ rw large (decimal_begins fuel (n / 10) _ (ground arith))
]

parse_uint_digits : (s : String) → BeginsWithDigit s → parse_uint s ≡ scan 0 s
unfolding parse_uint
parse_uint_digits String.[] h = absurd h
parse_uint_digits (String.◌∷◌ c s) h = refl

atoi_digits : (s : String) → BeginsWithDigit s → atoi s ≡ non_negative (scan 0 s)
unfolding atoi
atoi_digits String.[] h = absurd h
atoi_digits (String.◌∷◌ c s) h = ground arith

parse_uint-decimal : (n : ℕ) → n < word_mod → parse_uint (decimal n n "") ≡ number n
unfolding scan
parse_uint-decimal n fits =
    parse_uint_digits _ (decimal_begins n n "" (omega arith))
    ∙ scan-decimal n n "" (omega arith) fits

-- Atoi reads every int back from the text that Itoa writes for it, negative ones included.
pub atoi-itoa : (n : ℕ) → n < word_mod → atoi (itoa n) ≡ number n
unfolding itoa
atoi-itoa n fits = elim (Bool-cases (ltb n sign_bit)) [
  | inl positive ↦ rw positive (
      atoi_digits _ (decimal_begins n n "" (omega arith))
      ∙ ap non_negative (scan-decimal n n "" (omega arith) fits)
      ∙ unfold scan non_negative in ground arith)
  | inr other ↦ rw other (
      unfold atoi in
      rw (parse_uint-decimal (negate n) (omega arith)) (unfold negative in ground arith))
]
