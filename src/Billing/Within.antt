-- ===== src/Billing/Within.antt =====
-- What a client has used and reserved stays within its budgets (internal/audit/billing.go).
use deepseek_moderation_api.Prelude.{
  ℕ, ◌+◌, ◌≤◌, ◌≡◌, refl, ◌∙◌, Bool, true, false, List, [], ◌∷◌, Option, some, arith, if◌then◌else◌,
  map, String, eq_iff, Result, ok, err, ◌>>◌, inl, inr, Bool-cases, All, All-map,
}
use deepseek_moderation_api.Clock.{shanghai_day, month_index}
use deepseek_moderation_api.Pricing.{Usage}
use deepseek_moderation_api.Billing.{
  CostRow, CostReservation, Budget, day_used, month_used, counted_cost, in_month, on_day,
}
use deepseek_moderation_api.Billing.Reserve.{
  ClientKey, ReserveRequest, estimate, check_client, check_budget, check_key, is_over, new_row,
}
use deepseek_moderation_api.Billing.Settle.{settlement, settle_cost, cleanup}
use deepseek_moderation_api.Billing.Once.{settlement-cached}
use deepseek_moderation_api.Billing.Budgets.{
  is_over-le, check_budget-ok, reserve_cost-ok, Budgets, IsCovered, reserve_step, settle_step,
  cleanup_step, Reachable, start, next, IsWithinBudget,
}
use deepseek_moderation_api.Billing.Limits.{
  IsHeld, new_row-IsHeld, settle_row-IsHeld, settle_row-in_month, expire_row-same,
  expire_row-IsHeld, sum_where-le, sum_where-cong,
}

record IsSound (budgets : Budgets) (rows : List CostRow) : Type 0 where
  held : All IsHeld rows
  within : (client : String) (date : ℕ) → IsWithinBudget budgets client date rows

check_client-ok :
    (key : Option ClientKey) (b : Budget) (q : ReserveRequest) (asked : ℕ) (rows : List CostRow)
    → q.production ≡ true
    → q.cached ≡ false
    → check_client key b q asked rows ≡ ok tt
    → check_budget b q asked rows ≡ ok tt
unfolding check_client check_budget
check_client-ok key b q asked rows p c h = second (check_key key) (rw (p, c) at h)
  where
    second :
        (m : Result (Unit {0}))
        → (m >> check_budget b q asked rows) ≡ ok tt
        → check_budget b q asked rows ≡ ok tt
    second (ok u) e = e
    second (err f) e = cc

in_month-new_row :
    (client : String) (date asked : ℕ) (q : ReserveRequest)
    → in_month client date (new_row q asked) ≡ true
    → (q.client_id ≡ client)
      × (q.production ≡ true)
      × (month_index (shanghai_day q.at) ≡ month_index date)
unfolding in_month new_row
in_month-new_row client date asked q h = ground (arith, eq_iff q.client_id client)

on_day-new_row :
    (client : String) (date asked : ℕ) (q : ReserveRequest)
    → on_day client date (new_row q asked) ≡ true
    → (in_month client date (new_row q asked) ≡ true) × (shanghai_day q.at ≡ date)
unfolding on_day new_row
on_day-new_row client date asked q h = ground arith

new_row-cost :
    (q : ReserveRequest) (asked : ℕ)
    → counted_cost (new_row q asked) ≡ (if q.cached then 0 else asked)
unfolding new_row
new_row-cost q asked = elim (Bool-cases q.cached) [
  | inl cached ↦ rw cached refl
  | inr fresh ↦ rw fresh refl
]

-- The month alone decides.
in_month-cong :
    (client : String) (date date' : ℕ) (row : CostRow)
    → month_index date ≡ month_index date'
    → in_month client date row ≡ in_month client date' row
unfolding in_month
in_month-cong client date date' row e = rw e refl

-- A row more, where its cost still fits.
one_more :
    (b cached : Bool) (asked cost used limit : ℕ)
    → cost ≡ (if cached then 0 else asked)
    → used ≤ limit
    → (b ≡ true → cached ≡ false → asked + used ≤ limit)
    → (if b then cost else 0) + used ≤ limit
one_more b cached asked cost used limit e h f = ground (arith, e, h, f)

daily-fits :
    (budgets : Budgets) (client client' : String) (date date' asked limit : ℕ) (rows : List CostRow)
    → client' ≡ client
    → date' ≡ date
    → (budgets client).daily_limit ≡ some limit
    → is_over (budgets client').daily_limit (day_used client' date' rows) asked ≡ false
    → asked + day_used client date rows ≤ limit
daily-fits budgets client client' date date' asked limit rows c d h o =
    is_over-le limit (day_used client date rows) asked (rw (c, d, h) at o)

monthly-fits :
    (budgets : Budgets) (client client' : String) (date date' asked limit : ℕ) (rows : List CostRow)
    → client' ≡ client
    → month_index date' ≡ month_index date
    → (budgets client).monthly_limit ≡ some limit
    → is_over (budgets client').monthly_limit (month_used client' date' rows) asked ≡ false
    → asked + month_used client date rows ≤ limit
monthly-fits budgets client client' date date' asked limit rows c d h o =
    let same =
      sum_where-cong (in_month client date') (in_month client date) rows
        (λ row. in_month-cong client date' date row d) in
    is_over-le limit (month_used client date rows) asked (rw (c, h, same) at o)

reserve-IsSound :
    (budgets : Budgets) (key : Option ClientKey) (q : ReserveRequest) (rows : List CostRow)
    (asked : ℕ)
    → check_client key (budgets q.client_id) q asked rows ≡ ok tt
    → estimate q ≡ ok asked
    → IsSound budgets rows
    → IsSound budgets (new_row q asked ∷ rows)
reserve-IsSound budgets key q rows asked passed e s = record {
  held = (new_row-IsHeld q asked e, s.held);
  within = λ client date. record {
    daily = λ limit h.
        one_more (on_day client date (new_row q asked)) q.cached asked _ _ limit
          (new_row-cost q asked) ((s.within client date).daily limit h)
          (λ hit fresh.
            let (month_hit, same_day) = on_day-new_row client date asked q hit in
            let (same, production, _) = in_month-new_row client date asked q month_hit in
            daily-fits budgets client q.client_id date _ asked limit rows same same_day h
              (found production fresh).0);
    monthly = λ limit h.
        one_more (in_month client date (new_row q asked)) q.cached asked _ _ limit
          (new_row-cost q asked) ((s.within client date).monthly limit h)
          (λ hit fresh.
            let (same, production, same_month) = in_month-new_row client date asked q hit in
            monthly-fits budgets client q.client_id date _ asked limit rows same same_month h
              (found production fresh).1);
  };
}
  where
    found :
        q.production ≡ true
        → q.cached ≡ false
        → (is_over
              (budgets q.client_id).daily_limit
              (day_used q.client_id (shanghai_day q.at) rows)
              asked
            ≡ false)
          × (is_over
                (budgets q.client_id).monthly_limit
                (month_used q.client_id (shanghai_day q.at) rows)
                asked
              ≡ false)
    found p c =
        check_budget-ok (budgets q.client_id) q asked rows
          (check_client-ok key (budgets q.client_id) q asked rows p c passed)

-- A change of rows that keeps what they are and raises no cost keeps the budgets.
map-IsSound :
    (budgets : Budgets) (f : CostRow → CostRow) (rows : List CostRow)
    → All
        (λ row.
          IsHeld (f row)
          × (counted_cost (f row) ≤ counted_cost row)
          × ((client : String) (date : ℕ)
              → (in_month client date (f row) ≡ in_month client date row)
                × (on_day client date (f row) ≡ on_day client date row)))
        rows
    → IsSound budgets rows
    → IsSound budgets (map f rows)
map-IsSound budgets f rows a s = record {
  held = held rows a;
  within = λ client date. record {
    daily = λ limit h.
        below
          (sum_where-le (on_day client date) f rows
            (All-map _ _ rows (λ row p. ((p.2 client date).1, p.1)) a))
          ((s.within client date).daily limit h);
    monthly = λ limit h.
        below
          (sum_where-le (in_month client date) f rows
            (All-map _ _ rows (λ row p. ((p.2 client date).0, p.1)) a))
          ((s.within client date).monthly limit h);
  };
}
  where
    below : {a b c : ℕ} → a ≤ b → b ≤ c → a ≤ c
    below l k = omega (arith, l, k)

    held :
        (xs : List CostRow)
        → All
            (λ row.
              IsHeld (f row)
              × (counted_cost (f row) ≤ counted_cost row)
              × ((client : String) (date : ℕ)
                  → (in_month client date (f row) ≡ in_month client date row)
                    × (on_day client date (f row) ≡ on_day client date row)))
            xs
        → All IsHeld (map f xs)
    held [] b = tt
    held (x ∷ xs) b = (b.0.0, held xs b.1)

All-zip :
    (P Q : CostRow → Type 0) (rows : List CostRow)
    → All P rows
    → All Q rows
    → All (λ row. P row × Q row) rows
All-zip P Q [] a b = tt
All-zip P Q (row ∷ rows) a b = ((a.0, b.0), All-zip P Q rows a.1 b.1)

settle-IsSound :
    (budgets : Budgets) (entry : CostReservation) (u : Usage) (end_ : ℕ) (rows : List CostRow)
    → IsCovered entry (settlement entry u end_) rows
    → IsSound budgets rows
    → IsSound budgets (settle_cost entry u end_ rows)
unfolding settle_cost
settle-IsSound budgets entry u end_ rows c s =
    map-IsSound budgets _ rows
      (All-map _ _ rows
        (λ row h.
          let (held, le) =
            settle_row-IsHeld entry.id (settlement entry u end_) row
              (λ own.
                let (same, nothing) = h.1 own in
                (
                  λ open_. same ∙ nothing (settlement-cached entry u end_ open_),
                  λ v e. at_most (c.charged v e) same,
                ))
              h.0 in
          (
            held,
            le,
            λ client date. settle_row-in_month entry.id (settlement entry u end_) client date row,
          ))
        (All-zip IsHeld _ rows s.held c.own))
      s
  where
    at_most : {a b c : ℕ} → a ≤ b → c ≡ b → a ≤ c
    at_most l e = omega (arith, l, e)

cleanup-IsSound :
    (budgets : Budgets) (now : ℕ) (rows : List CostRow)
    → IsSound budgets rows
    → IsSound budgets (cleanup now rows)
unfolding cleanup
cleanup-IsSound budgets now rows s =
    map-IsSound budgets _ rows
      (All-map _ _ rows
        (λ row h. (
          expire_row-IsHeld now row h,
          same_le (expire_row-same now row.client_id 0 row).2,
          λ client date. let (m, d, _) = expire_row-same now client date row in (m, d),
        ))
        s.held)
      s
  where
    same_le : {a b : ℕ} → a ≡ b → a ≤ b
    same_le e = omega (arith, e)

Reachable-IsSound :
    (budgets : Budgets) (rows : List CostRow) → Reachable budgets rows → IsSound budgets rows
Reachable-IsSound budgets rows start = record {
  held = tt;
  within = λ client date. record { daily = λ l h. omega arith; monthly = λ l h. omega arith };
}
Reachable-IsSound budgets rows (next r (reserve_step key q before after entry e)) =
    let (asked, estimated, passed, same) =
      reserve_cost-ok key (budgets q.client_id) q before after entry e in
    rw same (
      reserve-IsSound budgets key q before asked passed estimated
        (Reachable-IsSound budgets before r))
Reachable-IsSound budgets rows (next r (settle_step entry u end_ before c)) =
    settle-IsSound budgets entry u end_ before c (Reachable-IsSound budgets before r)
Reachable-IsSound budgets rows (next r (cleanup_step now before)) =
    cleanup-IsSound budgets now before (Reachable-IsSound budgets before r)

-- However reservations, settlements and cleanups of all clients follow each other: what a client has
-- used and reserved on a day, and in its month, is never above its limit, if each call is charged
-- no more than was reserved for it. The limits stay the same meanwhile.
pub Reachable-IsWithinBudget :
    (budgets : Budgets) (rows : List CostRow) (client : String) (date : ℕ)
    → Reachable budgets rows
    → IsWithinBudget budgets client date rows
Reachable-IsWithinBudget budgets rows client date r =
    (Reachable-IsSound budgets rows r).within client date
