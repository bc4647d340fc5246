-- ===== src/Billing/Settle.antt =====
-- After a call: `SettleCost`, `Cost` and `reconcileCost` of internal/audit/billing.go, and the cleanup
-- of reservations that were never settled (internal/audit/store.go).
use deepseek_moderation_api.Prelude.{
  ℕ, ◌+◌, ◌*◌, Bool, true, false, not, ◌&&◌, List, [], ◌∷◌, Option, none, some, if◌then◌else◌, map,
  String, str_eq, Result, ok, err, problem,
}
use deepseek_moderation_api.Clock.{minute, before}
use deepseek_moderation_api.Pricing.{
  PriceRates, Usage, CostStatus, reserved, pending, estimated, zero_cost, local_cache, reconciled,
  Charge, calculate, is_open,
}
use deepseek_moderation_api.Billing.{CostRow, CostReservation}

pub record Settlement : Type 0 where
  pub status : CostStatus
  pub amount : Option ℕ

abbrev pub pending_settlement : Settlement
pending_settlement = record { status = pending; amount = none }

-- A pending cost has no amount yet.
unfoldable pub of_charge : Charge → Settlement
of_charge c = if c.failed then pending_settlement else elim c.status [
  | pending ↦ pending_settlement
  | s ↦ record { status = s; amount = some c.amount }
]

abbrev pub priced_settlement : Option PriceRates → Usage → (start end_ : ℕ) → Settlement
priced_settlement none u start end_ = pending_settlement
priced_settlement (some card) u start end_ = of_charge (calculate card u start end_)

unfoldable pub settlement : CostReservation → Usage → (end_ : ℕ) → Settlement
settlement entry u end_ =
    if entry.cache_hit
    then record { status = local_cache; amount = some 0 }
    else if not u.attempted
    then record { status = zero_cost; amount = some 0 }
    else priced_settlement entry.price u entry.started_at end_

-- The UPDATE: a row that is already settled stays as it is.
unfoldable pub settle_row : String → Settlement → CostRow → CostRow
settle_row id s row =
    if str_eq row.id id && is_open row.status
    then record row { amount_pico = s.amount; status = s.status }
    else row

unfoldable pub settle_cost : CostReservation → Usage → (end_ : ℕ) → List CostRow → List CostRow
settle_cost entry u end_ rows = map (settle_row entry.id (settlement entry u end_)) rows

abbrev pub is_reserved : CostStatus → Bool
is_reserved reserved = true
is_reserved _ = false

-- `started_at < now - 2 minutes`.
unfoldable pub expire_row : ℕ → CostRow → CostRow
expire_row now row =
    if is_reserved row.status && before (row.started_at + 2 * minute) now
    then record row { status = pending }
    else row

unfoldable pub cleanup : ℕ → List CostRow → List CostRow
cleanup now rows = map (expire_row now) rows

abbrev pub is_reconcilable : CostStatus → Bool
is_reconcilable pending = true
is_reconcilable estimated = true
is_reconcilable _ = false

abbrev pub then_row : CostRow → Result (List CostRow) → Result (List CostRow)
then_row row (ok rows) = ok (row ∷ rows)
then_row row (err e) = err e

-- The administrator's amount, on the one row of the id.
unfoldable pub reconcile_cost : String → ℕ → List CostRow → Result (List CostRow)
reconcile_cost id amount [] = err (problem 404 "not_found")
reconcile_cost id amount (row ∷ rows) =
    let rest = then_row row (reconcile_cost id amount rows) in
    if str_eq row.id id
    then if is_reconcilable row.status
      then ok (record row { status = reconciled; amount_pico = some amount } ∷ rows)
      else err (problem 409 "cost_already_settled")
    else rest
