-- ===== src/Examples/Billing.antt =====
-- One reservation and its settlement: internal/audit/billing.go.
use deepseek_moderation_api.Prelude.{
  ◌+◌, ◌*◌, ◌≡◌, refl, true, false, List, [], ◌∷◌, Option, some, none, ok,
}
use deepseek_moderation_api.Prelude.Int.{pos}
use deepseek_moderation_api.Clock.{shanghai_day, month_index}
use deepseek_moderation_api.Pricing.{
  PriceRates, Usage, rates_valid, reserve, safe_cost, cost_step, higher_rates,
}
use deepseek_moderation_api.Billing.{CostRow}
use deepseek_moderation_api.Billing.Reserve.{
  ClientKey, ReserveRequest, reserve_cost, estimate, check_client, check_key, check_budget,
  insert_row, new_row, new_entry,
}
use deepseek_moderation_api.Billing.Settle.{settle_cost}
use deepseek_moderation_api.Billing.Once.{settle_cost-settle_cost}
use deepseek_moderation_api.Billing.Budgets.{Budgets, start, next, reserve_step, IsWithinBudget}
use deepseek_moderation_api.Billing.Within.{Reachable-IsWithinBudget}

abbrev card : PriceRates
card = record {
  off_hit = pos 10;
  off_miss = pos 50;
  off_output = pos 200;
  peak_hit = pos 20;
  peak_miss = pos 100;
  peak_output = pos 400;
}

abbrev call : Usage
call = record {
  prompt_tokens = pos 300;
  completion_tokens = pos 20;
  total_tokens = pos 320;
  cache_hit_tokens = some (pos 100);
  cache_miss_tokens = some (pos 200);
  reasoning_tokens = pos 0;
  reported = true;
  attempted = true;
}

abbrev key : Option ClientKey
key = some (record { active = true; unexpired = true; allowed = true })

abbrev budgets : Budgets
budgets client = record { daily_limit = some 300_000; monthly_limit = none }

abbrev request : ReserveRequest
request = record {
  id = "cost_1";
  client_id = "client";
  production = true;
  card = some card;
  image_count = 0;
  prompt_bytes = 600;
  text_bytes = 400;
  max_tokens = pos 64;
  cached = false;
  at = 1_000_000_000;
}

abbrev rows : List CostRow
rows = new_row request 228_000 ∷ []

request-granted :
    reserve_cost key (budgets "client") request [] ≡ ok (rows, new_entry request 228_000)
unfolding reserve_cost estimate check_client check_key check_budget insert_row new_row rates_valid
    reserve safe_cost cost_step higher_rates
request-granted = refl

day-epoch : shanghai_day 1_000_000_000 ≡ 0
unfolding shanghai_day
day-epoch = refl

-- January 1970, and the leap day of 2024 with the day after it.
months :
    (month_index 0 ≡ 12 * 1970)
    × (month_index 19_782 ≡ 12 * 2024 + 1)
    × (month_index 19_783 ≡ 12 * 2024 + 2)
unfolding month_index
months = (refl, refl, refl)

Reachable-IsWithinBudget_example : IsWithinBudget budgets "client" 0 rows
Reachable-IsWithinBudget_example =
    Reachable-IsWithinBudget budgets rows "client" 0
      (next start (reserve_step key request [] rows (new_entry request 228_000) request-granted))

settle_cost-settle_cost_example :
    settle_cost
      (new_entry request 228_000)
      call
      3_000_000_000
      (settle_cost (new_entry request 228_000) call 2_000_000_000 rows)
    ≡ settle_cost (new_entry request 228_000) call 2_000_000_000 rows
settle_cost-settle_cost_example =
    settle_cost-settle_cost (new_entry request 228_000) call call 2_000_000_000 3_000_000_000 rows
