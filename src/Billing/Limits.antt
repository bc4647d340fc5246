-- ===== src/Billing/Limits.antt =====
-- What the operations on the ledger keep of a row (internal/audit/billing.go).
use deepseek_moderation_api.Prelude.{
  ℕ, ◌+◌, ◌*◌, ◌≤◌, ◌≡◌, refl, sym, Bool, true, false, not, ◌&&◌, List, [], ◌∷◌, some, arith,
  if◌then◌else◌, map, String, str_eq, ok, internal, ◌>>◌, refuse_if, inl, inr, Bool-cases,
  Option-cases, All,
}
use deepseek_moderation_api.Clock.{before, minute}
use deepseek_moderation_api.Pricing.{is_open, rates_valid}
use deepseek_moderation_api.Billing.{CostRow, counted_cost, sum_where, in_month, on_day}
use deepseek_moderation_api.Billing.Reserve.{ReserveRequest, estimate, new_row}
use deepseek_moderation_api.Billing.Settle.{Settlement, settle_row, expire_row, is_reserved}

-- An open cost counts with what was reserved for it.
abbrev pub IsHeld : CostRow → Type 0
IsHeld row = is_open row.status ≡ true → counted_cost row ≡ row.reserved_pico

estimate-cached :
    (q : ReserveRequest) (asked : ℕ) → q.cached ≡ true → estimate q ≡ ok asked → asked ≡ 0
unfolding estimate
estimate-cached q asked cached h = elim (Option-cases q.card) [
  | inl no_card ↦ sym (ok_eq (rw no_card at h))
  | inr (card, e) ↦ checked (rates_valid card) (rw (e, cached) at h)
]
  where
    ok_eq : {a b : ℕ} → ok a ≡ ok b → a ≡ b
    ok_eq e = ground (arith, e)

    checked : (valid : Bool) → (refuse_if (not valid) internal >> ok 0) ≡ ok asked → asked ≡ 0
    checked true e = sym (ok_eq e)
    checked false e = cc

pub new_row-IsHeld :
    (q : ReserveRequest) (asked : ℕ) → estimate q ≡ ok asked → IsHeld (new_row q asked)
unfolding new_row
new_row-IsHeld q asked h open_ = elim (Bool-cases q.cached) [
  | inl cached ↦ rw cached (sym (estimate-cached q asked cached h))
  | inr fresh ↦ rw fresh refl
]

-- What a settlement has to keep to, on the row that it is for.
abbrev pub Keeps : Settlement → CostRow → Type 0
Keeps s row =
    (is_open s.status ≡ true → row.reserved_pico ≡ 0)
    × ((v : ℕ) → s.amount ≡ some v → v ≤ row.reserved_pico)

settled-le :
    (s : Settlement) (row : CostRow)
    → Keeps s row
    → counted_cost (record row { amount_pico = s.amount; status = s.status }) ≤ row.reserved_pico
settled-le s row k = elim (Option-cases s.amount) [
  | inl none_yet ↦ rw none_yet (omega arith)
  | inr (v, e) ↦ rw e (k.1 v e)
]

pub settle_row-IsHeld :
    (id : String) (s : Settlement) (row : CostRow)
    → (str_eq row.id id ≡ true → Keeps s row)
    → IsHeld row
    → IsHeld (settle_row id s row) × (counted_cost (settle_row id s row) ≤ counted_cost row)
unfolding settle_row
settle_row-IsHeld id s row f h = elim (Bool-cases (str_eq row.id id && is_open row.status)) [
  | inr missed ↦ rw missed (h, omega arith)
  | inl hit ↦
      let (same, open_) = both _ _ hit in
      let k = f same in
      let le = settled-le s row k in
      rw hit (λ still_open. zero_le (k.0 still_open) le, le_eq le (h open_))
]
  where
    both : (a b : Bool) → (a && b) ≡ true → (a ≡ true) × (b ≡ true)
    both a b e = ground arith

    zero_le : {a b : ℕ} → b ≡ 0 → a ≤ b → a ≡ b
    zero_le e l = omega (arith, e, l)

    le_eq : {a b c : ℕ} → a ≤ b → c ≡ b → a ≤ c
    le_eq l e = omega (arith, l, e)

-- The client, the kind and the date of a row stay.
pub settle_row-in_month :
    (id : String) (s : Settlement) (client : String) (date : ℕ) (row : CostRow)
    → (in_month client date (settle_row id s row) ≡ in_month client date row)
      × (on_day client date (settle_row id s row) ≡ on_day client date row)
unfolding in_month on_day settle_row
settle_row-in_month id s client date row =
    elim (Bool-cases (str_eq row.id id && is_open row.status)) [
      | inl hit ↦ rw hit (refl, refl)
      | inr missed ↦ rw missed (refl, refl)
    ]

pub expire_row-same :
    (now : ℕ) (client : String) (date : ℕ) (row : CostRow)
    → (in_month client date (expire_row now row) ≡ in_month client date row)
      × (on_day client date (expire_row now row) ≡ on_day client date row)
      × (counted_cost (expire_row now row) ≡ counted_cost row)
unfolding in_month on_day expire_row
expire_row-same now client date row =
    elim (Bool-cases (is_reserved row.status && before (row.started_at + 2 * minute) now)) [
      | inl old ↦ rw old (refl, refl, refl)
      | inr young ↦ rw young (refl, refl, refl)
    ]

pub expire_row-IsHeld : (now : ℕ) (row : CostRow) → IsHeld row → IsHeld (expire_row now row)
unfolding expire_row
expire_row-IsHeld now row h =
    elim (Bool-cases (is_reserved row.status && before (row.started_at + 2 * minute) now)) [
      | inl old ↦ rw old (λ e. cc)
      | inr young ↦ rw young h
    ]

-- A change of rows that raises no cost raises no sum.
pub sum_where-le :
    (p : CostRow → Bool) (f : CostRow → CostRow) (rows : List CostRow)
    → All (λ row. (p (f row) ≡ p row) × (counted_cost (f row) ≤ counted_cost row)) rows
    → sum_where p (map f rows) ≤ sum_where p rows
sum_where-le p f [] a = omega arith
sum_where-le p f (row ∷ rows) a =
    let (same, le) = a.0 in rw same (added (p row) le (sum_where-le p f rows a.1))
  where
    added :
        {x y m n : ℕ} (b : Bool)
        → x ≤ y
        → m ≤ n
        → (if b then x else 0) + m ≤ (if b then y else 0) + n
    added true l k = omega (arith, l, k)
    added false l k = omega (arith, l, k)

pub sum_where-cong :
    (p q : CostRow → Bool) (rows : List CostRow)
    → ((row : CostRow) → p row ≡ q row)
    → sum_where p rows ≡ sum_where q rows
sum_where-cong p q [] e = refl
sum_where-cong p q (row ∷ rows) e = rw (e row, sum_where-cong p q rows e) refl
