-- ===== src/Billing/Budgets.antt =====
-- What a client has used and reserved stays within its budgets (internal/audit/billing.go).
use deepseek_moderation_api.Prelude.{
  ℕ, ◌+◌, ◌≤◌, ◌≡◌, refl, sym, ap, ◌∙◌, Bool, true, false, ◌||◌, List, [], ◌∷◌, Option, some, arith,
  String, str_eq, Result, ok, err, Failure, ◌>>◌, >>=-eq-ok, refuse_if, inl, inr, Bool-cases, All,
}
use deepseek_moderation_api.Clock.{shanghai_day}
use deepseek_moderation_api.Pricing.{Usage}
use deepseek_moderation_api.Billing.{CostRow, CostReservation, Budget, day_used, month_used}
use deepseek_moderation_api.Billing.Reserve.{
  ClientKey, ReserveRequest, estimate, check_client, check_budget, has_limit, is_over, new_row,
  insert_row, reserve_cost,
}
use deepseek_moderation_api.Billing.Settle.{Settlement, settlement, settle_cost, cleanup}

insert_row-ok :
    (row : CostRow) (rows rows' : List CostRow)
    → insert_row row rows ≡ ok rows'
    → rows' ≡ row ∷ rows
unfolding insert_row
insert_row-ok row rows rows' h = ground arith

pub is_over-le :
    (limit used asked : ℕ) → is_over (some limit) used asked ≡ false → asked + used ≤ limit
is_over-le limit used asked h = ground arith

refuse_if-ok :
    (b : Bool) (e : Failure) (k : Result (Unit {0}))
    → (refuse_if b e >> k) ≡ ok tt
    → (b ≡ false) × (k ≡ ok tt)
refuse_if-ok true e k h = cc
refuse_if-ok false e k h = (refl, h)

no_limit :
    (b : Budget) (d m asked : ℕ)
    → has_limit b ≡ false
    → (is_over b.daily_limit d asked ≡ false) × (is_over b.monthly_limit m asked ≡ false)
no_limit b d m asked h = ground arith

last_passed :
    (m : Result (Unit {0})) (d : Bool) (e : Failure) → (m >> refuse_if d e) ≡ ok tt → d ≡ false
last_passed (ok u) false e h = refl
last_passed (ok u) true e h = cc
last_passed (err f) d e h = cc

either_false : (a b : Bool) → (a || b) ≡ false → (a ≡ false) × (b ≡ false)
either_false a b h = ground arith

-- What the check of the budgets has found when it passes.
pub check_budget-ok :
    (b : Budget) (q : ReserveRequest) (asked : ℕ) (rows : List CostRow)
    → check_budget b q asked rows ≡ ok tt
    → (is_over b.daily_limit (day_used q.client_id (shanghai_day q.at) rows) asked ≡ false)
      × (is_over b.monthly_limit (month_used q.client_id (shanghai_day q.at) rows) asked ≡ false)
unfolding check_budget
check_budget-ok b q asked rows h = elim (Bool-cases (has_limit b)) [
  | inr none_set ↦ no_limit b _ _ asked none_set
  | inl limited ↦ let h' = rw limited at h in either_false _ _ (last_passed _ _ _ h')
]

abbrev rows_of : Result (List CostRow × CostReservation) → List CostRow
rows_of (ok r) = r.0
rows_of (err e) = []

-- A reservation that is granted is one more row, after both checks.
pub reserve_cost-ok :
    (key : Option ClientKey) (b : Budget) (q : ReserveRequest) (rows rows' : List CostRow)
    (entry : CostReservation)
    → reserve_cost key b q rows ≡ ok (rows', entry)
    → (asked : ℕ) × (estimate q ≡ ok asked)
      × (check_client key b q asked rows ≡ ok tt)
      × (rows' ≡ new_row q asked ∷ rows)
unfolding reserve_cost
reserve_cost-ok key b q rows rows' entry h =
    let (asked, estimated, checked) = >>=-eq-ok (estimate q) _ h in
    let (_, passed, inserted) = >>=-eq-ok (check_client key b q asked rows) _ checked in
    let (rows'', added, e) = >>=-eq-ok (insert_row (new_row q asked) rows) _ inserted in
    (
      asked,
      estimated,
      passed,
      sym (ap rows_of e) ∙ insert_row-ok (new_row q asked) rows rows'' added,
    )

-- The budgets that a client has, kept while the ledger changes.
abbrev pub Budgets : Type 0
Budgets = String → Budget

-- The entry is the one that its row was made with, and the call is charged no more than was
-- reserved for it.
pub record IsCovered (entry : CostReservation) (s : Settlement) (rows : List CostRow) : Type 0 where
  pub own :
      All
        (λ row.
          str_eq row.id entry.id ≡ true
          → (row.reserved_pico ≡ entry.reserved) × (entry.cache_hit ≡ true → entry.reserved ≡ 0))
        rows
  pub charged : (v : ℕ) → s.amount ≡ some v → v ≤ entry.reserved

pub data Step (budgets : Budgets) : List CostRow → List CostRow → Type 0 where
  reserve_step :
      (key : Option ClientKey) (q : ReserveRequest) (rows rows' : List CostRow)
      (entry : CostReservation)
      → reserve_cost key (budgets q.client_id) q rows ≡ ok (rows', entry)
      → Step budgets rows rows'
  settle_step :
      (entry : CostReservation) (u : Usage) (end_ : ℕ) (rows : List CostRow)
      → IsCovered entry (settlement entry u end_) rows
      → Step budgets rows (settle_cost entry u end_ rows)
  cleanup_step : (now : ℕ) (rows : List CostRow) → Step budgets rows (cleanup now rows)

pub data Reachable (budgets : Budgets) : List CostRow → Type 0 where
  start : Reachable budgets []
  next :
      {rows rows' : List CostRow}
      → Reachable budgets rows
      → Step budgets rows rows'
      → Reachable budgets rows'

-- The limits of a client for the day and its month.
pub record IsWithinBudget (budgets : Budgets) (client : String) (date : ℕ) (rows : List CostRow)
    : Type 0 where
  pub daily :
      (limit : ℕ) → (budgets client).daily_limit ≡ some limit → day_used client date rows ≤ limit
  pub monthly :
      (limit : ℕ)
      → (budgets client).monthly_limit ≡ some limit
      → month_used client date rows ≤ limit
