-- ===== src/Ingress/Reports.antt =====
-- How often rejections are logged (internal/audit/ingress.go).
use deepseek_moderation_api.Prelude.{
  ℕ, ◌%◌, ◌+◌, ◌*◌, ◌≤◌, ◌<◌, ◌≡◌, ◌||◌, List, [], ◌∷◌, arith, leb, length, Bool-cases, inl, inr,
  if◌then◌else◌,
}
use deepseek_moderation_api.Clock.{second, is_zero}
use deepseek_moderation_api.Ingress.{two64, IngressGuard, record_rejection}

-- Rejections at the given times, with the number of lines that they write.
abbrev pub reject_all : IngressGuard → List ℕ → IngressGuard × ℕ
reject_all g [] = (g, 0)
reject_all g (now ∷ ts) =
    let r = record_rejection g now in
    let rest = reject_all r.0 ts in (rest.0, (if r.1 then 1 else 0) + rest.1)

record_rejection-le :
    (g : IngressGuard) (now : ℕ)
    → 0 < g.last_reported
    → ((record_rejection g now).0.rejected % two64 ≡ (g.rejected + 1) % two64)
      × ((if (record_rejection g now).1 then 1 else 0) * (30 * second) + g.last_reported
          ≤ (record_rejection g now).0.last_reported)
unfolding record_rejection
record_rejection-le g now h =
    elim (Bool-cases (is_zero g.last_reported || leb (g.last_reported + 30 * second) now)) [
      | inl due ↦ rw due (omega arith, ground arith)
      | inr early ↦ rw early (omega arith, omega arith)
    ]

-- For a guard that has logged a line: rejections, however many and at whatever times, are all
-- counted, up to the range of a uint64, and the time of the last line moves on by at least 30 seconds
-- for each line that they write.
pub reject_all-le :
    (g : IngressGuard) (ts : List ℕ)
    → 0 < g.last_reported
    → ((reject_all g ts).0.rejected % two64 ≡ (g.rejected + length ts) % two64)
      × ((reject_all g ts).1 * (30 * second) + g.last_reported ≤ (reject_all g ts).0.last_reported)
reject_all-le g [] h = (omega arith, omega arith)
reject_all-le g (now ∷ ts) h =
    let one = record_rejection-le g now h in
    let rest = reject_all-le (record_rejection g now).0 ts (omega (arith, h, one.1)) in
    (omega (arith, one.0, rest.0), omega (arith, one.1, rest.1))
