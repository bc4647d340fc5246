-- ===== src/Billing/Reserve.antt =====
-- The reservation before a call: `ReserveCost` of internal/audit/billing.go.
use deepseek_moderation_api.Prelude.{
  ℕ, ◌-◌, Bool, true, false, not, ◌&&◌, ◌||◌, List, ◌∷◌, Option, none, some, any, ltb, ◌==◌,
  if◌then◌else◌, String, str_eq, Result, ok, err, problem, internal, ◌>>=◌, ◌>>◌, refuse_if,
}
use deepseek_moderation_api.Prelude.Int.{ℤ}
use deepseek_moderation_api.Clock.{shanghai_day}
use deepseek_moderation_api.Pricing.{PriceRates, reserved, local_cache, rates_valid, reserve}
use deepseek_moderation_api.Billing.{
  CostRow, CostReservation, Budget, day_used, month_used, unknown_costs,
}

-- The row of `client_api_keys`, as the query reads it.
pub record ClientKey : Type 0 where
  pub active : Bool
  pub unexpired : Bool
  pub allowed : Bool

-- The arguments of the call that decide; the two texts count by their bytes.
pub record ReserveRequest : Type 0 where
  pub id : String
  pub client_id : String
  pub production : Bool
  pub card : Option PriceRates
  pub image_count : ℕ
  pub prompt_bytes : ℕ
  pub text_bytes : ℕ
  pub max_tokens : ℤ
  pub cached : Bool
  pub at : ℕ

abbrev pub has_card : ReserveRequest → Bool
has_card q = elim q.card [ none ↦ false | some c ↦ true ]

abbrev pub reservation_valid : ReserveRequest → Bool
reservation_valid q = q.cached || has_card q && q.image_count == 0

-- `ConnectionPrice` refuses a card whose rates are not valid.
unfoldable pub estimate : ReserveRequest → Result ℕ
estimate q = elim q.card [
  | none ↦ ok 0
  | some card ↦
      refuse_if (not (rates_valid card)) internal
      >> (if not q.cached && q.image_count == 0
          then reserve card q.prompt_bytes q.text_bytes q.max_tokens
          else ok 0)
]

unfoldable pub check_key : Option ClientKey → Result (Unit {0})
check_key none = err (problem 401 "invalid_api_key")
check_key (some key) =
    refuse_if (not key.active || not key.unexpired) (problem 401 "invalid_api_key")
    >> refuse_if (not key.allowed) (problem 403 "policy_forbidden")

abbrev pub has_limit : Budget → Bool
has_limit b = elim b.daily_limit [
  | some l ↦ true
  | none ↦ elim b.monthly_limit [ none ↦ false | some l ↦ true ]
]

-- `used > limit || reserved > limit - used`, where there is a limit.
abbrev pub is_over : Option ℕ → (used asked : ℕ) → Bool
is_over none used asked = false
is_over (some limit) used asked = ltb limit used || ltb (limit - used) asked

unfoldable pub check_budget : Budget → ReserveRequest → ℕ → List CostRow → Result (Unit {0})
check_budget b q asked rows =
    let date = shanghai_day q.at in
    if not (has_limit b)
    then ok tt
    else refuse_if (ltb 0 q.image_count) (problem 503 "pricing_unavailable")
      >> refuse_if (not (has_card q)) (problem 503 "pricing_unavailable")
      >> refuse_if (ltb 0 (unknown_costs q.client_id date rows)) (problem 429 "budget_pending")
      >> refuse_if
          (is_over b.daily_limit (day_used q.client_id date rows) asked
            || is_over b.monthly_limit (month_used q.client_id date rows) asked)
          (problem 429 "budget_exceeded")

unfoldable pub new_row : ReserveRequest → ℕ → CostRow
new_row q asked = record {
  id = q.id;
  client_id = q.client_id;
  production = q.production;
  budget_date = shanghai_day q.at;
  started_at = q.at;
  reserved_pico = asked;
  amount_pico = if q.cached then some 0 else none;
  status = if q.cached then local_cache else reserved;
  reservation_valid = reservation_valid q;
}

abbrev pub new_entry : ReserveRequest → ℕ → CostReservation
new_entry q asked = record {
  id = q.id;
  client_id = q.client_id;
  production = q.production;
  price = q.card;
  started_at = q.at;
  reserved = asked;
  cache_hit = q.cached;
  image_input = ltb 0 q.image_count;
}

-- The id is the primary key of the table.
unfoldable pub insert_row : CostRow → List CostRow → Result (List CostRow)
insert_row row rows = if any (λ r. str_eq r.id row.id) rows then err internal else ok (row ∷ rows)

unfoldable pub check_client :
    Option ClientKey → Budget → ReserveRequest → ℕ → List CostRow → Result (Unit {0})
check_client key b q asked rows =
    (if q.production then check_key key else ok tt)
    >> (if q.production && not q.cached then check_budget b q asked rows else ok tt)

unfoldable pub reserve_cost :
    Option ClientKey
    → Budget
    → ReserveRequest
    → List CostRow
    → Result (List CostRow × CostReservation)
reserve_cost key b q rows = do
  asked ← estimate q
  check_client key b q asked rows
  rows' ← insert_row (new_row q asked) rows
  ok (rows', new_entry q asked)
