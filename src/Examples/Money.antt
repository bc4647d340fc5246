-- ===== src/Examples/Money.antt =====
-- Amounts of money: internal/audit/pricing.go and internal/audit/evaluation_runs.go.
use deepseek_moderation_api.Prelude.{ℕ, ◌≤◌, ◌≡◌, refl, List, [], ◌∷◌, arith, ok}
use deepseek_moderation_api.Money.{
  pico_string, evaluation_money_string, parse_cny, max_int64, decimal, decimal_fuel, trim_right,
  digits, split, trim_space, trim_left_space, trim_right_space, parse_split, parse_parts,
  digits_value, parse_int,
}
use deepseek_moderation_api.Money.RoundTrip.{
  pico_string-eq-evaluation_money_string, parse_cny-pico_string, parse_cny-canonical, amount_limit,
}

-- " 12.50 ", and half a CNY more than twelve.
abbrev padded : List ℕ
padded = b' ' ∷ b'1' ∷ b'2' ∷ b'.' ∷ b'5' ∷ b'0' ∷ b' ' ∷ []

abbrev twelve_and_a_half : ℕ
twelve_and_a_half = 12_500_000_000_000

parse_padded : parse_cny padded ≡ ok twelve_and_a_half
unfolding parse_cny parse_split trim_space split trim_left_space trim_right_space parse_parts
    digits_value parse_int
parse_padded = refl

pico_string_half : pico_string twelve_and_a_half ≡ b'1' ∷ b'2' ∷ b'.' ∷ b'5' ∷ []
unfolding pico_string decimal decimal_fuel trim_right digits
pico_string_half = refl

pico_string-eq-evaluation_money_string_example :
    pico_string twelve_and_a_half ≡ evaluation_money_string twelve_and_a_half
pico_string-eq-evaluation_money_string_example =
    pico_string-eq-evaluation_money_string twelve_and_a_half

parse_cny-pico_string_example : parse_cny (pico_string twelve_and_a_half) ≡ ok twelve_and_a_half
parse_cny-pico_string_example = parse_cny-pico_string twelve_and_a_half (omega arith)

parse_cny-canonical_example :
    (twelve_and_a_half ≤ amount_limit)
    × (twelve_and_a_half ≤ max_int64)
    × (parse_cny (pico_string twelve_and_a_half) ≡ ok twelve_and_a_half)
parse_cny-canonical_example = parse_cny-canonical padded twelve_and_a_half parse_padded
