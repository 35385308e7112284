-- ===== src/Strconv.antt =====
-- What the server uses of Go's package strconv: Atoi and Itoa. An `int` is its 64-bit pattern, a
-- number below 2 ^ 64; patterns from 2 ^ 63 on are the negative numbers.
pub mod RoundTrip
use Prim.Native.Char.{Char, code}
use Prim.Native.String
use learning_crossplane_e2e.Prelude.{
  ◌⊕◌, ℕ, zero, suc, ◌+◌, ◌-◌, ◌*◌, ◌/◌, ◌%◌, ◌^◌, String, ◌||◌, ltb, leb, ◌==◌, if◌then◌else◌,
}

abbrev pub word_mod : ℕ
word_mod = 2 ^ 64

abbrev pub sign_bit : ℕ
sign_bit = 2 ^ 63

-- -n
abbrev pub negate : ℕ → ℕ
negate n = (word_mod - n) % word_mod

pub data Parsed : Type 0 where
  number : ℕ → Parsed
  syntax_error range_error : Parsed

-- The loop of ParseUint: the digits behind the number read so far.
unfoldable pub scan : ℕ → String → Parsed
scan n String.[] = number n
scan n (String.◌∷◌ c s) =
    if ltb (code c) b'0' || ltb b'9' (code c)
    then syntax_error
    else if leb (word_mod / 10 + 1) n
    then range_error
    else if leb word_mod (n * 10 + (code c - b'0'))
    then range_error
    else scan (n * 10 + (code c - b'0')) s

unfoldable pub parse_uint : String → Parsed
unfolding scan
parse_uint String.[] = syntax_error
parse_uint (String.◌∷◌ c s) = scan 0 (String.◌∷◌ c s)

-- The range of an int64 with its sign.
unfoldable pub non_negative : Parsed → Parsed
non_negative (number n) = if leb sign_bit n then range_error else number n
non_negative syntax_error = syntax_error
non_negative range_error = range_error

unfoldable pub negative : Parsed → Parsed
negative (number n) = if ltb sign_bit n then range_error else number (negate n)
negative syntax_error = syntax_error
negative range_error = range_error

unfoldable pub atoi : String → Parsed
unfolding parse_uint non_negative negative
atoi String.[] = syntax_error
atoi (String.◌∷◌ c s) =
    if code c == b'+'
    then non_negative (parse_uint s)
    else if code c == b'-'
    then negative (parse_uint s)
    else non_negative (parse_uint (String.◌∷◌ c s))

-- The text of a `*NumError` of Atoi; `quote` is `strconv.Quote`.
abbrev pub error_text : (String → String) → String → String → String
error_text quote s reason = "strconv.Atoi: parsing " ⊕ (quote s ⊕ (": " ⊕ reason))

abbrev pub digit_char : ℕ → Char
digit_char zero = "0"
digit_char (suc zero) = "1"
digit_char (suc (suc zero)) = "2"
digit_char (suc (suc (suc zero))) = "3"
digit_char (suc (suc (suc (suc zero)))) = "4"
digit_char (suc (suc (suc (suc (suc zero))))) = "5"
digit_char (suc (suc (suc (suc (suc (suc zero)))))) = "6"
digit_char (suc (suc (suc (suc (suc (suc (suc zero))))))) = "7"
digit_char (suc (suc (suc (suc (suc (suc (suc (suc zero)))))))) = "8"
digit_char (suc (suc (suc (suc (suc (suc (suc (suc (suc d))))))))) = "9"

-- The decimal digits of `n` in front of a text; each round divides `n` by ten.
unfoldable pub decimal : ℕ → ℕ → String → String
decimal zero n rest = String.◌∷◌ (digit_char n) rest
decimal (suc fuel) n rest =
    let more = decimal fuel (n / 10) (String.◌∷◌ (digit_char (n % 10)) rest) in
    if ltb n 10 then String.◌∷◌ (digit_char n) rest else more

unfoldable pub itoa : ℕ → String
unfolding decimal
itoa n =
    if ltb n sign_bit then decimal n n "" else String.◌∷◌ "-" (decimal (negate n) (negate n) "")
