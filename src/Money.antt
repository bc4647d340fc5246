-- ===== src/Money.antt =====
-- Amounts of money as decimal text: internal/audit/pricing.go (picoString, parseCNY) and the printer
-- of internal/audit/evaluation_runs.go. A text is the list of its code points; an amount is a
-- number of pico-CNY. The program prints no negative amount, so ℕ serves for its int64.
pub mod Digits
pub mod Trim
pub mod RoundTrip
use deepseek_moderation_api.Prelude.{
  ℕ, zero, suc, ◌+◌, ◌-◌, ◌*◌, ◌/◌, ◌%◌, ◌^◌, ◌≤◌, ◌<◌, Bool, true, false, not, ◌&&◌, ◌||◌, List,
  [], ◌∷◌, ◌++◌, Option, none, some, ltb, leb, ◌==◌, if◌then◌else◌, length, all, replicate, Result,
  ok, err, problem, ◌>>=◌, ◌>>◌, refuse_if,
}

abbrev pub pico_per_cny : ℕ
pico_per_cny = 1_000_000_000_000

abbrev pub max_int64 : ℕ
max_int64 = 9_223_372_036_854_775_807

-- `%d`: the decimal digits of a number, most significant first. The fuel is the number itself.
unfoldable pub decimal_fuel : ℕ → ℕ → List ℕ
decimal_fuel zero n = []
decimal_fuel (suc f) n =
    let rest = decimal_fuel f (n / 10) ++ (b'0' + n % 10) ∷ [] in
    if ltb n 10 then (b'0' + n) ∷ [] else rest

unfoldable pub decimal : ℕ → List ℕ
unfolding decimal_fuel
decimal n = decimal_fuel (suc n) n

-- `%012d` of a value below 10 ^ 12: exactly `k` digits.
unfoldable pub digits : ℕ → ℕ → List ℕ
digits zero n = []
digits (suc k) n = digits k (n / 10) ++ (b'0' + n % 10) ∷ []

abbrev pub cons_unless : ℕ → ℕ → List ℕ → List ℕ
cons_unless c x [] = if x == c then [] else x ∷ []
cons_unless c x (y ∷ ys) = x ∷ y ∷ ys

-- strings.TrimRight with a cutset of one character.
unfoldable pub trim_right : ℕ → List ℕ → List ℕ
trim_right c [] = []
trim_right c (x ∷ xs) = cons_unless c x (trim_right c xs)

unfoldable pub pico_string : ℕ → List ℕ
pico_string v =
    if v == 0
    then b'0' ∷ []
    else trim_right b'.'
        (trim_right b'0' (decimal (v / pico_per_cny) ++ b'.' ∷ digits 12 (v % pico_per_cny)))

-- math/big prints the quotient and the remainder of an unbounded amount.
pub evaluation_money_string : ℕ → List ℕ
evaluation_money_string value =
    let fraction = decimal (value % pico_per_cny) in
    if value % pico_per_cny == 0
    then decimal (value / pico_per_cny)
    else decimal (value / pico_per_cny)
      ++ b'.' ∷ trim_right b'0' (replicate (12 - length fraction) b'0' ++ fraction)

-- unicode.IsSpace, which strings.TrimSpace cuts by.
abbrev pub is_space : ℕ → Bool
is_space c =
    leb 9 c && leb c 13
    || c == 32
    || c == 0x85
    || c == 0xa0
    || c == 0x1680
    || leb 0x2000 c && leb c 0x200a
    || c == 0x2028
    || c == 0x2029
    || c == 0x202f
    || c == 0x205f
    || c == 0x3000

unfoldable pub trim_left_space : List ℕ → List ℕ
trim_left_space [] = []
trim_left_space (x ∷ xs) = if is_space x then trim_left_space xs else x ∷ xs

abbrev pub cons_unless_space : ℕ → List ℕ → List ℕ
cons_unless_space x [] = if is_space x then [] else x ∷ []
cons_unless_space x (y ∷ ys) = x ∷ y ∷ ys

unfoldable pub trim_right_space : List ℕ → List ℕ
trim_right_space [] = []
trim_right_space (x ∷ xs) = cons_unless_space x (trim_right_space xs)

unfoldable pub trim_space : List ℕ → List ℕ
unfolding trim_left_space trim_right_space
trim_space s = trim_right_space (trim_left_space s)

abbrev pub push : ℕ → List (List ℕ) → List (List ℕ)
push x [] = (x ∷ []) ∷ []
push x (p ∷ ps) = (x ∷ p) ∷ ps

-- strings.Split by one character: the parts between its occurrences, never none.
unfoldable pub split : ℕ → List ℕ → List (List ℕ)
split c [] = [] ∷ []
split c (x ∷ xs) = if x == c then [] ∷ split c xs else push x (split c xs)

abbrev pub is_digit : ℕ → Bool
is_digit r = leb b'0' r && leb r b'9'

unfoldable pub digits_value : ℕ → List ℕ → ℕ
digits_value acc [] = acc
digits_value acc (c ∷ cs) = digits_value (acc * 10 + (c - b'0')) cs

-- strconv.ParseInt(s, 10, 64) of a text of digits: it fails on none and above the int64.
unfoldable pub parse_int : List ℕ → Option ℕ
parse_int [] = none
parse_int (c ∷ cs) = let n = digits_value 0 (c ∷ cs) in if leb n max_int64 then some n else none

-- The amount limit and the precision, once the text is split.
unfoldable pub parse_parts : List ℕ → List ℕ → Result ℕ
parse_parts whole_text fraction = elim (parse_int whole_text) [
  | none ↦ err (problem 400 "amount_limit")
  | some whole ↦ do
    refuse_if (ltb 100000 whole) (problem 400 "amount_limit")
    refuse_if (ltb 12 (length fraction)) (problem 400 "amount_precision")
    let tail = digits_value 0 (fraction ++ replicate (12 - length fraction) b'0')
    refuse_if (whole == 100000 && ltb 0 tail) (problem 400 "amount_limit")
    ok (whole * pico_per_cny + tail)
]

abbrev pub digits_only : List (List ℕ) → Bool
digits_only parts = all (all is_digit) parts

unfoldable pub parse_split : List (List ℕ) → Result ℕ
unfolding parse_parts
parse_split [] = err (problem 400 "amount_format")
parse_split ([] ∷ ps) = err (problem 400 "amount_format")
parse_split ((c ∷ cs) ∷ []) =
    refuse_if (not (digits_only ((c ∷ cs) ∷ []))) (problem 400 "amount_digits")
    >> parse_parts (c ∷ cs) []
parse_split ((c ∷ cs) ∷ f ∷ []) =
    refuse_if (not (digits_only ((c ∷ cs) ∷ f ∷ []))) (problem 400 "amount_digits")
    >> parse_parts (c ∷ cs) f
parse_split ((c ∷ cs) ∷ f ∷ g ∷ ps) = err (problem 400 "amount_format")

unfoldable pub parse_cny : List ℕ → Result ℕ
unfolding parse_split trim_space split
parse_cny s = parse_split (split b'.' (trim_space s))
