-- ===== src/Examples/Pricing.antt =====
-- The cost of a call: internal/audit/pricing.go.
use deepseek_moderation_api.Prelude.{
  ◌≤◌, ◌≡◌, refl, true, false, some, arith, ok, err, problem, ltb, ◌||◌, if◌then◌else◌,
}
use deepseek_moderation_api.Prelude.Int.{pos, negsuc}
use deepseek_moderation_api.Money.{max_int64}
use deepseek_moderation_api.Pricing.{
  PriceRates, Rates, Usage, safe_cost, reserve, calculate, rates_valid, cost_step, higher_rates,
}
use deepseek_moderation_api.Pricing.Cover.{
  safe_cost-exact, calculate-le-reserve, IsWithin, any_negative, exact_cost,
}

abbrev card : PriceRates
card = record {
  off_hit = pos 10;
  off_miss = pos 50;
  off_output = pos 200;
  peak_hit = pos 20;
  peak_miss = pos 100;
  peak_output = pos 400;
}

abbrev peak_rates : Rates
peak_rates = record { hit_rate = pos 20; miss_rate = pos 100; out_rate = pos 400 }

abbrev call : Usage
call = record {
  prompt_tokens = pos 300;
  completion_tokens = pos 20;
  total_tokens = pos 320;
  cache_hit_tokens = some (pos 100);
  cache_miss_tokens = some (pos 200);
  reasoning_tokens = pos 0;
  reported = true;
  attempted = true;
}

safe_cost_peak : safe_cost (pos 100) (pos 200) (pos 20) peak_rates ≡ ok 30_000
unfolding safe_cost cost_step
safe_cost_peak = refl

safe_cost_negative :
    safe_cost (pos 100) (negsuc 0) (pos 20) peak_rates ≡ err (problem 400 "usage_overflow")
unfolding safe_cost cost_step
safe_cost_negative = refl

safe_cost-exact_example : safe_cost (pos 100) (pos 200) (pos 20) peak_rates ≡ (
    if any_negative (pos 100) (pos 200) (pos 20) peak_rates
      || ltb max_int64 (exact_cost (pos 100) (pos 200) (pos 20) peak_rates)
    then err (problem 400 "usage_overflow")
    else ok (exact_cost (pos 100) (pos 200) (pos 20) peak_rates))
safe_cost-exact_example = safe_cost-exact (pos 100) (pos 200) (pos 20) peak_rates

-- 1000 bytes of prompt and text, and at most 64 tokens of output.
reserve_call : reserve card 600 400 (pos 64) ≡ ok 228_000
unfolding reserve safe_cost cost_step higher_rates
reserve_call = refl

card-valid : rates_valid card ≡ true
unfolding rates_valid
card-valid = refl

call-IsWithin : IsWithin call 2024 64
call-IsWithin = record {
  reported = refl;
  prompt = (refl, omega arith);
  output = (refl, omega arith);
  split = λ hit miss h m. ground arith;
}

calculate-le-reserve_example :
    ((calculate card call 1_000_000_000 90_000_000_000_000).failed ≡ false)
    × ((calculate card call 1_000_000_000 90_000_000_000_000).amount ≤ 228_000)
calculate-le-reserve_example =
    calculate-le-reserve card 600 400 (pos 64) 228_000 call 1_000_000_000 90_000_000_000_000
      card-valid reserve_call call-IsWithin
