-- ===== src/Billing.antt =====
-- The ledger of costs and the budgets of clients: internal/audit/billing.go. A row keeps the columns
-- that decide amounts; names, notes and usage texts are left out. A transaction that locks the
-- client's key is one operation.
pub mod Reserve
pub mod Settle
pub mod Budgets
pub mod Once
pub mod Limits
pub mod Within
use deepseek_moderation_api.Prelude.{
  ℕ, ◌+◌, Bool, true, false, not, ◌&&◌, List, [], ◌∷◌, Option, none, some, ◌==◌, if◌then◌else◌,
  String, str_eq,
}
use deepseek_moderation_api.Clock.{month_index}
use deepseek_moderation_api.Pricing.{PriceRates, CostStatus}

-- `budget_date` is a day on the clock of Asia/Shanghai.
pub record CostRow : Type 0 where
  pub id : String
  pub client_id : String
  pub production : Bool
  pub budget_date : ℕ
  pub started_at : ℕ
  pub reserved_pico : ℕ
  pub amount_pico : Option ℕ
  pub status : CostStatus
  pub reservation_valid : Bool

pub record CostReservation : Type 0 where
  pub id : String
  pub client_id : String
  pub production : Bool
  pub price : Option PriceRates
  pub started_at : ℕ
  pub reserved : ℕ
  pub cache_hit : Bool
  pub image_input : Bool

pub record Budget : Type 0 where
  pub daily_limit : Option ℕ
  pub monthly_limit : Option ℕ

-- COALESCE(amount_pico, reserved_pico).
abbrev pub counted_cost : CostRow → ℕ
counted_cost row = elim row.amount_pico [ none ↦ row.reserved_pico | some v ↦ v ]

abbrev pub sum_where : (CostRow → Bool) → List CostRow → ℕ
sum_where p [] = 0
sum_where p (row ∷ rows) = (if p row then counted_cost row else 0) + sum_where p rows

abbrev pub count_where : (CostRow → Bool) → List CostRow → ℕ
count_where p [] = 0
count_where p (row ∷ rows) = (if p row then 1 else 0) + count_where p rows

-- The rows of a client's production calls in the month of a day.
unfoldable pub in_month : String → ℕ → CostRow → Bool
in_month client date row =
    str_eq row.client_id client && row.production && month_index row.budget_date == month_index date

unfoldable pub on_day : String → ℕ → CostRow → Bool
unfolding in_month
on_day client date row = in_month client date row && row.budget_date == date

abbrev pub day_used : String → ℕ → List CostRow → ℕ
day_used client date rows = sum_where (on_day client date) rows

abbrev pub month_used : String → ℕ → List CostRow → ℕ
month_used client date rows = sum_where (in_month client date) rows

abbrev pub is_unknown : CostRow → Bool
is_unknown row = elim row.amount_pico [ none ↦ not row.reservation_valid | some v ↦ false ]

abbrev pub unknown_costs : String → ℕ → List CostRow → ℕ
unknown_costs client date rows =
    count_where (λ row. in_month client date row && is_unknown row) rows
