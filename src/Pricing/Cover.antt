-- ===== src/Pricing/Cover.antt =====
-- The cost arithmetic is exact below the int64 limit, and a reservation covers the later charge.
use native.Mathlib.Nat.{mul-le-mul, div-lt_iff_lt-mul}
use deepseek_moderation_api.Prelude.{
  ℕ, zero, suc, ◌+◌, ◌-◌, ◌*◌, ◌/◌, ◌≤◌, ◌<◌, ◌≡◌, refl, sym, ◌∙◌, Bool, true, false, ◌||◌, inl,
  inr, none, some, Option, arith, ltb, if◌then◌else◌, Bool-cases, Failure, Result, ok, err, problem,
  ltb→lt, lt→ltb,
}
use deepseek_moderation_api.Prelude.Int.{ℤ, pos, pos_part, is_neg, max_ℤ}
use deepseek_moderation_api.Money.{max_int64}
use deepseek_moderation_api.Clock.{Period, peak, off_peak, price_period}
use deepseek_moderation_api.Pricing.{
  CostStatus, calculated, estimated, charge_of, is_open, PriceRates, rates_valid, Rates, values,
  cost_step, safe_cost, higher_rates, reserve, Usage, call_rates, charge_unsplit, charge_split,
  calculate, same_period,
}

-- The guard's division decides the exact sum.
guard-exact :
    (total t r : ℕ)
    → total ≤ max_int64
    → 0 < r
    → ltb ((max_int64 - total) / r) t ≡ ltb max_int64 (total + t * r)
guard-exact total t r b p = elim (Bool-cases (ltb max_int64 (total + t * r))) [
  | inl over ↦
      rw over (
        lt→ltb _ _ ((div-lt_iff_lt-mul p).1 (omega (arith, ltb→lt max_int64 (total + t * r) over))))
  | inr fits ↦ elim (Bool-cases (ltb ((max_int64 - total) / r) t)) [
    | inl q ↦
        let less : max_int64 - total < t * r = (div-lt_iff_lt-mul p).0 (ltb→lt _ _ q) in
        absurd (ground arith)
    | inr q ↦ q ∙ sym fits
  ]
]

cost_step-exact :
    (tokens rate : ℤ) (total : ℕ)
    → total ≤ max_int64
    → cost_step tokens rate (ok total) ≡ (
        if is_neg tokens || is_neg rate || ltb max_int64 (total + pos_part tokens * pos_part rate)
        then err (problem 400 "usage_overflow")
        else ok (total + pos_part tokens * pos_part rate))
unfolding cost_step
cost_step-exact (pos t) (pos zero) total b = ground arith
cost_step-exact (pos t) (pos (suc r)) total b =
    rw (guard-exact total t (suc r) b (omega arith)) (ground arith)
cost_step-exact _ _ total b = ground arith

cost_step-err : (tokens rate : ℤ) {e : Failure} → cost_step tokens rate (err e) ≡ err e
unfolding cost_step
cost_step-err tokens rate = refl

abbrev pub exact_cost : ℤ → ℤ → ℤ → Rates → ℕ
exact_cost hit miss output r =
    pos_part hit * pos_part r.hit_rate
    + pos_part miss * pos_part r.miss_rate
    + pos_part output * pos_part r.out_rate

abbrev pub any_negative : ℤ → ℤ → ℤ → Rates → Bool
any_negative hit miss output r =
    is_neg hit
    || is_neg miss
    || is_neg output
    || is_neg r.hit_rate
    || is_neg r.miss_rate
    || is_neg r.out_rate

-- Two rounds of the loop, with the sums written out.
two_steps :
    (t r t' r' : ℤ) (total : ℕ)
    → total ≤ max_int64
    → cost_step t' r' (cost_step t r (ok total)) ≡ (
        if is_neg t
          || is_neg r
          || is_neg t'
          || is_neg r'
          || ltb max_int64 (total + pos_part t * pos_part r + pos_part t' * pos_part r')
        then err (problem 400 "usage_overflow")
        else ok (total + pos_part t * pos_part r + pos_part t' * pos_part r'))
two_steps t r t' r' total b = ground (
  arith,
  cost_step-exact t r total,
  cost_step-exact t' r' (total + pos_part t * pos_part r),
  cost_step-err t' r' {e = problem 400 "usage_overflow"},
)

-- `safe_cost` is the exact sum of the products where no argument is negative and the sum is an
-- int64, and an error in every other case.
pub safe_cost-exact :
    (hit miss output : ℤ) (r : Rates)
    → safe_cost hit miss output r ≡ (
        if any_negative hit miss output r || ltb max_int64 (exact_cost hit miss output r)
        then err (problem 400 "usage_overflow")
        else ok (exact_cost hit miss output r))
unfolding safe_cost
safe_cost-exact hit miss output r = ground (
  arith,
  two_steps hit r.hit_rate miss r.miss_rate 0 (omega arith),
  cost_step-exact output r.out_rate
      (0 + pos_part hit * pos_part r.hit_rate + pos_part miss * pos_part r.miss_rate),
  cost_step-err output r.out_rate {e = problem 400 "usage_overflow"},
)

fields-nonnegative :
    (r : PriceRates)
    → rates_valid r ≡ true
    → (is_neg r.off_hit ≡ false)
      × (is_neg r.off_miss ≡ false)
      × (is_neg r.off_output ≡ false)
      × (is_neg r.peak_hit ≡ false)
      × (is_neg r.peak_miss ≡ false)
      × (is_neg r.peak_output ≡ false)
unfolding rates_valid
fields-nonnegative r valid = ground arith

max_ℤ-bounds :
    (a b : ℤ)
    → is_neg a ≡ false
    → is_neg b ≡ false
    → (is_neg (max_ℤ a b) ≡ false)
      × (pos_part a ≤ pos_part (max_ℤ a b))
      × (pos_part b ≤ pos_part (max_ℤ a b))
max_ℤ-bounds a b p q = ground arith

max_ℤ-least : (a b : ℤ) (n : ℕ) → pos_part a ≤ n → pos_part b ≤ n → pos_part (max_ℤ a b) ≤ n
max_ℤ-least a b n p q = ground arith

abbrev Below : Rates → Rates → Type 0
Below k h =
    (is_neg k.hit_rate ≡ false)
    × (is_neg k.miss_rate ≡ false)
    × (is_neg k.out_rate ≡ false)
    × (pos_part k.hit_rate ≤ pos_part h.hit_rate)
    × (pos_part k.miss_rate ≤ pos_part h.miss_rate)
    × (pos_part k.out_rate ≤ pos_part h.out_rate)

values-Below :
    (r : PriceRates) (p : Period) → rates_valid r ≡ true → Below (values r p) (higher_rates r)
unfolding values higher_rates
values-Below r p valid =
    let f = fields-nonnegative r valid in
    let hit = max_ℤ-bounds r.peak_hit r.off_hit f.3 f.0 in
    let miss = max_ℤ-bounds r.peak_miss r.off_miss f.4 f.1 in
    let out = max_ℤ-bounds r.peak_output r.off_output f.5 f.2 in
    elim p as (λ p. Below (values r p) (higher_rates r)) [
      | peak ↦ (f.3, f.4, f.5, hit.1, miss.1, out.1)
      | off_peak ↦ (f.0, f.1, f.2, hit.2, miss.2, out.2)
    ]

higher_rates-Below :
    (r : PriceRates) → rates_valid r ≡ true → Below (higher_rates r) (higher_rates r)
unfolding higher_rates
higher_rates-Below r valid =
    let f = fields-nonnegative r valid in
    (
      (max_ℤ-bounds r.peak_hit r.off_hit f.3 f.0).0,
      (max_ℤ-bounds r.peak_miss r.off_miss f.4 f.1).0,
      (max_ℤ-bounds r.peak_output r.off_output f.5 f.2).0,
      omega arith,
      omega arith,
      omega arith,
    )

-- The rates of a call lie below the higher rates that a reservation goes by.
call_rates-Below :
    (r : PriceRates) (start end_ : ℕ)
    → rates_valid r ≡ true
    → Below (call_rates r start end_) (higher_rates r)
unfolding call_rates
call_rates-Below r start end_ valid =
    elim (Bool-cases (same_period (price_period start) (price_period end_))) [
      | inl same ↦ rw same (values-Below r (price_period start) valid)
      | inr differ ↦ rw differ (higher_rates-Below r valid)
    ]

products_le :
    (hit miss out h m o input limit rate out_rate : ℕ)
    → hit + miss ≤ input
    → out ≤ limit
    → h ≤ rate
    → m ≤ rate
    → o ≤ out_rate
    → hit * h + miss * m + out * o ≤ input * rate + limit * out_rate
products_le hit miss out h m o input limit rate out_rate a b c d e =
    let one : hit * h ≤ hit * rate = mul-le-mul (omega arith) c in
    let two : miss * m ≤ miss * rate = mul-le-mul (omega arith) d in
    let three : out * o ≤ limit * out_rate = mul-le-mul b e in
    let both : (hit + miss) * rate ≤ input * rate = mul-le-mul a (omega arith) in omega arith

-- A usage as `reserve` allows for: the prompt within the byte allowance, the output within the
-- limit, and a split into hits and misses, where there is one, of at most the prompt.
pub record IsWithin (u : Usage) (input limit : ℕ) : Type 0 where
  pub reported : u.reported ≡ true
  pub prompt : (is_neg u.prompt_tokens ≡ false) × (pos_part u.prompt_tokens ≤ input)
  pub output : (is_neg u.completion_tokens ≡ false) × (pos_part u.completion_tokens ≤ limit)
  pub split :
      (hit miss : ℤ)
      → u.cache_hit_tokens ≡ some hit
      → u.cache_miss_tokens ≡ some miss
      → (is_neg hit ≡ false)
        × (is_neg miss ≡ false)
        × (pos_part hit + pos_part miss ≤ pos_part u.prompt_tokens)

-- One call of `safe_cost` under the bounds succeeds with at most the reserved amount.
safe_cost-le :
    (hit miss out : ℤ) (k : Rates) (input limit rate out_rate v : ℕ)
    → is_neg hit ≡ false
    → is_neg miss ≡ false
    → is_neg out ≡ false
    → is_neg k.hit_rate ≡ false
    → is_neg k.miss_rate ≡ false
    → is_neg k.out_rate ≡ false
    → pos_part hit + pos_part miss ≤ input
    → pos_part out ≤ limit
    → pos_part k.hit_rate ≤ rate
    → pos_part k.miss_rate ≤ rate
    → pos_part k.out_rate ≤ out_rate
    → v ≡ input * rate + limit * out_rate
    → v ≤ max_int64
    → (a : ℕ) × (safe_cost hit miss out k ≡ ok a) × (a ≤ v)
safe_cost-le hit miss out k input limit rate out_rate v n1 n2 n3 n4 n5 n6 b1 b2 b3 b4 b5 e m = (
  exact_cost hit miss out k,
  ground (arith, safe_cost-exact hit miss out k, bound),
  omega (arith, bound),
)
  where
    bound : exact_cost hit miss out k ≤ v
    bound = omega (
      arith,
      products_le (pos_part hit) (pos_part miss) (pos_part out) (pos_part k.hit_rate)
          (pos_part k.miss_rate) (pos_part k.out_rate) input limit rate out_rate b1 b2 b3 b4 b5,
    )

guarded-ok :
    (a b : Bool) (x v : ℕ) (e : Failure)
    → (if a || b then err e else ok x) ≡ ok v
    → (v ≡ x) × (b ≡ false)
guarded-ok a b x v e h = ground arith

safe_cost-ok :
    (hit miss output : ℤ) (r : Rates) (v : ℕ)
    → safe_cost hit miss output r ≡ ok v
    → (v ≡ exact_cost hit miss output r) × (v ≤ max_int64)
safe_cost-ok hit miss output r v h =
    let (e, fits) =
      guarded-ok (any_negative hit miss output r) (ltb max_int64 (exact_cost hit miss output r))
        (exact_cost hit miss output r) v _ (sym (safe_cost-exact hit miss output r) ∙ h) in
    (e, rw e (ground arith))

reserve-ok :
    (r : PriceRates) (prompt_bytes text_bytes : ℕ) (max_tokens : ℤ) (v : ℕ)
    → reserve r prompt_bytes text_bytes max_tokens ≡ ok v
    → let h = higher_rates r in
      (v
        ≡ (prompt_bytes + text_bytes + 1024) * pos_part (max_ℤ h.hit_rate h.miss_rate)
          + pos_part max_tokens * pos_part h.out_rate)
      × (v ≤ max_int64)
unfolding reserve
reserve-ok r prompt_bytes text_bytes max_tokens v h =
    let (e, small) =
      safe_cost-ok (pos 0) (pos (prompt_bytes + text_bytes + 1024)) max_tokens
        (record {
          hit_rate = pos 0;
          miss_rate = max_ℤ (higher_rates r).hit_rate (higher_rates r).miss_rate;
          out_rate = (higher_rates r).out_rate;
        })
        v h in
    (omega (arith, e), small)

abbrev Covered : ℕ → Result ℕ → Type 0
Covered v c = (a : ℕ) × (c ≡ ok a) × (a ≤ v)

charge_split-le :
    (k : Rates) (u : Usage) (same : Bool) (hit miss : Option ℤ) (v : ℕ)
    → ((a b : ℤ) → hit ≡ some a → miss ≡ some b → Covered v (safe_cost a b u.completion_tokens k))
    → Covered v (charge_unsplit k u)
    → ((charge_split k u same hit miss).failed ≡ false)
      × ((charge_split k u same hit miss).amount ≤ v)
unfolding charge_split
charge_split-le k u same (some a) (some b) v split whole =
    let (x, e, l) = split a b refl refl in rw e (refl, l)
charge_split-le k u same (some a) none v split whole = let (x, e, l) = whole in rw e (refl, l)
charge_split-le k u same none miss v split whole = let (x, e, l) = whole in rw e (refl, l)

-- A reservation made before a call covers what the call is charged afterwards, in whichever
-- periods it starts and ends and with or without the cache split: for valid rates and a usage
-- within the allowance, `calculate` succeeds with at most the reserved amount.
pub calculate-le-reserve :
    (r : PriceRates) (prompt_bytes text_bytes : ℕ) (max_tokens : ℤ) (v : ℕ) (u : Usage)
    (start end_ : ℕ)
    → rates_valid r ≡ true
    → reserve r prompt_bytes text_bytes max_tokens ≡ ok v
    → IsWithin u (prompt_bytes + text_bytes + 1024) (pos_part max_tokens)
    → ((calculate r u start end_).failed ≡ false) × ((calculate r u start end_).amount ≤ v)
unfolding calculate charge_unsplit
calculate-le-reserve r prompt_bytes text_bytes max_tokens v u start end_ valid res w =
    let (e, small) = reserve-ok r prompt_bytes text_bytes max_tokens v res in
    let below = call_rates-Below r start end_ valid in
    let k = call_rates r start end_ in
    let h = higher_rates r in
    let top = higher_rates-Below r valid in
    let (rate_neg, hit_le, miss_le) = max_ℤ-bounds h.hit_rate h.miss_rate top.0 top.1 in
    let (k_neg, _, _) = max_ℤ-bounds k.hit_rate k.miss_rate below.0 below.1 in
    rw w.reported (
      charge_split-le k u (same_period (price_period start) (price_period end_)) u.cache_hit_tokens
        u.cache_miss_tokens v
        (λ a b p q.
          let (na, nb, le) = w.split a b p q in
          safe_cost-le a b u.completion_tokens k (prompt_bytes + text_bytes + 1024)
            (pos_part max_tokens) (pos_part (max_ℤ h.hit_rate h.miss_rate)) (pos_part h.out_rate) v
            na nb w.output.0 below.0 below.1 below.2 (omega arith) w.output.1 (omega arith)
            (omega arith) below.5 e small)
        (safe_cost-le (pos 0) u.prompt_tokens u.completion_tokens
          (record k { miss_rate = max_ℤ k.hit_rate k.miss_rate }) (prompt_bytes + text_bytes + 1024)
          (pos_part max_tokens) (pos_part (max_ℤ h.hit_rate h.miss_rate)) (pos_part h.out_rate) v
          refl w.prompt.0 w.output.0 below.0 k_neg below.2 (omega arith) w.output.1 (omega arith)
          (max_ℤ-least k.hit_rate k.miss_rate _ (omega arith) (omega arith)) below.5 e small))

charge_of-is_open : (s : CostStatus) (m : Result ℕ) → is_open (charge_of s m).status ≡ is_open s
charge_of-is_open s (ok v) = refl
charge_of-is_open s (err e) = refl

charge_split-is_open :
    (k : Rates) (u : Usage) (same : Bool) (hit miss : Option ℤ)
    → is_open (charge_split k u same hit miss).status ≡ false
unfolding charge_split
charge_split-is_open k u true (some hit) (some miss) =
    charge_of-is_open calculated (safe_cost hit miss u.completion_tokens k)
charge_split-is_open k u false (some hit) (some miss) =
    charge_of-is_open estimated (safe_cost hit miss u.completion_tokens k)
charge_split-is_open k u same (some hit) none = charge_of-is_open estimated (charge_unsplit k u)
charge_split-is_open k u same none miss = charge_of-is_open estimated (charge_unsplit k u)

-- No charge leaves the cost open.
pub calculate-is_open :
    (r : PriceRates) (u : Usage) (start end_ : ℕ)
    → is_open (calculate r u start end_).status ≡ false
unfolding calculate
calculate-is_open r u start end_ = elim (Bool-cases u.reported) [
  | inl told ↦ rw told (charge_split-is_open (call_rates r start end_) u _ _ _)
  | inr silent ↦ rw silent refl
]
