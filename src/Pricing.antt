-- ===== src/Pricing.antt =====
-- Price cards, cost of a call and the reservation before it: internal/audit/pricing.go. The texts
-- of notes for the administrator are left out.
pub mod Cover
use deepseek_moderation_api.Prelude.{
  ℕ, ◌+◌, ◌-◌, ◌*◌, ◌/◌, Bool, true, false, ◌&&◌, ◌||◌, not, List, [], ◌∷◌, Option, none, some, any,
  ltb, leb, ◌==◌, if◌then◌else◌, Result, ok, err, problem, String, str_eq,
}
use deepseek_moderation_api.Prelude.Int.{ℤ, pos, pos_part, is_neg, ltb_ℤ, max_ℤ}
use deepseek_moderation_api.Money.{max_int64}
use deepseek_moderation_api.Clock.{Period, peak, off_peak, price_period}

pub record PriceRates : Type 0 where
  pub off_hit : ℤ
  pub off_miss : ℤ
  pub off_output : ℤ
  pub peak_hit : ℤ
  pub peak_miss : ℤ
  pub peak_output : ℤ

-- `error` as a Boolean: true where the code returns nil.
unfoldable pub rates_valid : PriceRates → Bool
rates_valid r = not (
    any (λ v. is_neg v || ltb 1_000_000_000 (pos_part v))
      (r.off_hit ∷ r.off_miss ∷ r.off_output ∷ r.peak_hit ∷ r.peak_miss ∷ r.peak_output ∷ []))

pub record Rates : Type 0 where
  pub hit_rate : ℤ
  pub miss_rate : ℤ
  pub out_rate : ℤ

unfoldable pub values : PriceRates → Period → Rates
values r peak = record { hit_rate = r.peak_hit; miss_rate = r.peak_miss; out_rate = r.peak_output }
values r off_peak = record { hit_rate = r.off_hit; miss_rate = r.off_miss; out_rate = r.off_output }

-- One round of the loop of `safeCost`. The quotient of the guard rounds towards 0, as `/` does.
unfoldable pub cost_step : ℤ → ℤ → Result ℕ → Result ℕ
cost_step tokens rate (err e) = err e
cost_step tokens rate (ok total) =
    if is_neg tokens
      || is_neg rate
      || ltb 0 (pos_part rate) && ltb ((max_int64 - total) / pos_part rate) (pos_part tokens)
    then err (problem 400 "usage_overflow")
    else ok (total + pos_part tokens * pos_part rate)

unfoldable pub safe_cost : ℤ → ℤ → ℤ → Rates → Result ℕ
unfolding cost_step
safe_cost hit miss output r =
    cost_step output r.out_rate (cost_step miss r.miss_rate (cost_step hit r.hit_rate (ok 0)))

-- The rates that a reservation and a call across two periods are charged by.
unfoldable pub higher_rates : PriceRates → Rates
higher_rates r = record {
  hit_rate = max_ℤ r.peak_hit r.off_hit;
  miss_rate = max_ℤ r.peak_miss r.off_miss;
  out_rate = max_ℤ r.peak_output r.off_output;
}

-- `reserve`: the two texts count by their bytes.
unfoldable pub reserve : PriceRates → (prompt_bytes text_bytes : ℕ) (max_tokens : ℤ) → Result ℕ
unfolding safe_cost higher_rates
reserve r prompt_bytes text_bytes max_tokens =
    let input = prompt_bytes + text_bytes + 1024 in
    let h = higher_rates r in
    safe_cost (pos 0) (pos input) max_tokens
      (record { hit_rate = pos 0; miss_rate = max_ℤ h.hit_rate h.miss_rate; out_rate = h.out_rate })

-- The token counts that a provider reported.
pub record Usage : Type 0 where
  pub prompt_tokens : ℤ
  pub completion_tokens : ℤ
  pub total_tokens : ℤ
  pub cache_hit_tokens : Option ℤ
  pub cache_miss_tokens : Option ℤ
  pub reasoning_tokens : ℤ
  pub reported : Bool
  pub attempted : Bool

pub data CostStatus : Type 0 where
  reserved pending calculated estimated zero_cost local_cache reconciled : CostStatus

-- The statuses that a settlement replaces (internal/audit/billing.go).
abbrev pub is_open : CostStatus → Bool
is_open reserved = true
is_open local_cache = true
is_open _ = false

pub record Charge : Type 0 where
  pub amount : ℕ
  pub status : CostStatus
  pub failed : Bool

abbrev pub charge_of : CostStatus → Result ℕ → Charge
charge_of s (ok v) = record { amount = v; status = s; failed = false }
charge_of s (err e) = record { amount = 0; status = s; failed = true }

abbrev pub same_period : Period → Period → Bool
same_period peak peak = true
same_period off_peak off_peak = true
same_period _ _ = false

-- The rates of a call from `start` to `end_`: those of the period, or the higher of both.
unfoldable pub call_rates : PriceRates → (start end_ : ℕ) → Rates
unfolding values higher_rates price_period
call_rates r start end_ =
    if same_period (price_period start) (price_period end_)
    then values r (price_period start)
    else higher_rates r

-- Without the split into hits and misses all input counts as missed, at the higher input rate.
charge_unsplit : Rates → Usage → Result ℕ
unfolding safe_cost
charge_unsplit k u =
    safe_cost (pos 0) u.prompt_tokens u.completion_tokens
      (record k { miss_rate = max_ℤ k.hit_rate k.miss_rate })

charge_split : Rates → Usage → Bool → Option ℤ → Option ℤ → Charge
unfolding safe_cost charge_unsplit
charge_split k u same (some hit) (some miss) =
    charge_of (if same then calculated else estimated) (safe_cost hit miss u.completion_tokens k)
charge_split k u same (some hit) none = charge_of estimated (charge_unsplit k u)
charge_split k u same none miss = charge_of estimated (charge_unsplit k u)

pub calculate : PriceRates → Usage → (start end_ : ℕ) → Charge
unfolding charge_split call_rates
calculate r u start end_ =
    if u.reported
    then charge_split (call_rates r start end_) u
        (same_period (price_period start) (price_period end_)) u.cache_hit_tokens
        u.cache_miss_tokens
    else record { amount = 0; status = pending; failed = false }
