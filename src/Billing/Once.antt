-- ===== src/Billing/Once.antt =====
-- A cost is settled once (internal/audit/billing.go).
use deepseek_moderation_api.Prelude.{
  ℕ, ◌≡◌, refl, sym, ◌∙◌, ap, true, false, ◌&&◌, List, [], ◌∷◌, Option, none, some, arith, String,
  str_eq, ◌⊎◌, inl, inr, Bool-cases,
}
use deepseek_moderation_api.Pricing.{PriceRates, Usage, Charge, calculate, is_open}
use deepseek_moderation_api.Pricing.Cover.{calculate-is_open}
use deepseek_moderation_api.Billing.{CostRow, CostReservation}
use deepseek_moderation_api.Billing.Settle.{
  Settlement, of_charge, settlement, settle_row, settle_cost, priced_settlement,
}

settled_again :
    (id : String) (s s' : Settlement) (row : CostRow)
    → (is_open s.status ≡ false) ⊎ (s ≡ s')
    → settle_row id s' (record row { amount_pico = s.amount; status = s.status })
      ≡ record row { amount_pico = s.amount; status = s.status }
unfolding settle_row
settled_again id s s' row (inl closed) = ground (arith, closed)
settled_again id s s' row (inr same) =
    ground (arith, ap (λ x. x.amount) same, ap (λ x. x.status) same)

settle_row_twice :
    (id : String) (s s' : Settlement) (row : CostRow)
    → (is_open s.status ≡ false) ⊎ (s ≡ s')
    → settle_row id s' (settle_row id s row) ≡ settle_row id s row
unfolding settle_row
settle_row_twice id s s' row h = elim (Bool-cases (str_eq row.id id && is_open row.status)) [
  | inl hit ↦ rw hit (unfold settle_row in settled_again id s s' row h)
  | inr missed ↦ rw (missed, missed) refl
]

of_charge-closed : (c : Charge) → is_open c.status ≡ false → is_open (of_charge c).status ≡ false
unfolding of_charge
of_charge-closed c h = ground arith

priced_settlement-closed :
    (price : Option PriceRates) (u : Usage) (start end_ : ℕ)
    → is_open (priced_settlement price u start end_).status ≡ false
priced_settlement-closed none u start end_ = refl
priced_settlement-closed (some card) u start end_ =
    of_charge-closed (calculate card u start end_) (calculate-is_open card u start end_)

-- A settlement closes the cost, or is that of a cached result, whatever the usage says.
settlement-closed :
    (entry : CostReservation) (u u' : Usage) (end_ later : ℕ)
    → (is_open (settlement entry u end_).status ≡ false)
      ⊎ (settlement entry u end_ ≡ settlement entry u' later)
unfolding settlement
settlement-closed entry u u' end_ later = elim (Bool-cases entry.cache_hit) [
  | inl cached ↦ rw cached (inr refl)
  | inr fresh ↦ elim (Bool-cases u.attempted) [
    | inr unsent ↦ rw (fresh, unsent) (inl refl)
    | inl sent ↦ rw (fresh, sent) (inl (priced_settlement-closed entry.price _ _ _))
  ]
]

-- Only the settlement of a cached result stays open.
pub settlement-cached :
    (entry : CostReservation) (u : Usage) (end_ : ℕ)
    → is_open (settlement entry u end_).status ≡ true
    → entry.cache_hit ≡ true
unfolding settlement
settlement-cached entry u end_ h = elim (Bool-cases entry.cache_hit) [
  | inl cached ↦ cached
  | inr fresh ↦ elim (Bool-cases u.attempted) [
    | inr unsent ↦ absurd (false_true (rw (fresh, unsent) at h))
    | inl sent ↦
        absurd
          (false_true (sym (priced_settlement-closed entry.price _ _ _) ∙ (rw (fresh, sent) at h)))
  ]
]
  where
    false_true : false ≡ true → ⊥
    false_true e = cc

-- The first settlement of a reservation is the only one: a second, with whatever usage and at
-- whatever time, changes no amount and no status in the ledger.
pub settle_cost-settle_cost :
    (entry : CostReservation) (u u' : Usage) (end_ later : ℕ) (rows : List CostRow)
    → settle_cost entry u' later (settle_cost entry u end_ rows) ≡ settle_cost entry u end_ rows
unfolding settle_cost
settle_cost-settle_cost entry u u' end_ later [] = refl
settle_cost-settle_cost entry u u' end_ later (row ∷ rows) = cc (
  settle_row_twice entry.id (settlement entry u end_) (settlement entry u' later) row
      (settlement-closed entry u u' end_ later),
  settle_cost-settle_cost entry u u' end_ later rows,
)
