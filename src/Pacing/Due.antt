-- ===== src/Pacing/Due.antt =====
-- What the waits of an evaluation ensure (internal/audit/evaluation_pacing.go).
use deepseek_moderation_api.Prelude.{
  ℕ, ◌+◌, ◌≤◌, ◌<◌, ◌≡◌, false, ◌||◌, List, [], ◌∷◌, Option, none, some, arith, ltb, ◌↔◌, String,
  Bool-cases, inl, inr, All,
}
use deepseek_moderation_api.Keywords.{applies}
use deepseek_moderation_api.Pacing.{
  EvaluationPacer, EvaluationPlan, PacedChannel, evaluation_interval, evaluation_channels,
  wait_more, longest_wait, delay,
}

-- The channel was not called, has no limit, or was called an interval ago.
abbrev pub IsDueAt : Option ℕ → (rpm now : ℕ) → Type 0
IsDueAt none rpm now = Unit
IsDueAt (some last) rpm now = 0 < rpm → last + evaluation_interval rpm ≤ now

abbrev pub IsDue : EvaluationPacer → (now : ℕ) → PacedChannel → Type 0
IsDue p now c = IsDueAt (p c.id) c.rpm now

wait_more_iff :
    (known : Option ℕ) (rpm now delay d : ℕ)
    → (wait_more known rpm now delay ≤ d) ↔ ((delay ≤ d) × IsDueAt known rpm (now + d))
wait_more_iff none rpm now delay d = (λ h. (h, tt), λ h. h.0)
wait_more_iff (some last) rpm now delay d = elim (Bool-cases (ltb 0 rpm)) [
  | inl limited ↦ rw limited (
    λ h. (omega (arith, h), λ l. omega (arith, h)),
    λ h. let due = h.1 (ground arith) in omega (arith, h.0, due),
  )
  | inr free ↦ rw free (λ h. (h, λ l. ground arith), λ h. h.0)
]

longest_wait_iff :
    (p : EvaluationPacer) (now delay d : ℕ) (cs : List PacedChannel)
    → (longest_wait p now delay cs ≤ d) ↔ ((delay ≤ d) × All (IsDue p (now + d)) cs)
unfolding longest_wait
longest_wait_iff p now delay d [] = (λ h. (h, tt), λ h. h.0)
longest_wait_iff p now delay d (c ∷ cs) =
    let step = wait_more_iff (p c.id) c.rpm now delay d in
    let rest = longest_wait_iff p now (wait_more (p c.id) c.rpm now delay) d cs in
    (
      λ h. let r = rest.0 h in let s = step.0 r.0 in (s.0, (s.1, r.1)),
      λ h. rest.1 (step.1 (h.0, h.1.0), h.1.1),
    )

-- For an input that no keyword decides: the delay is the least wait after which each channel that
-- the call may use is due, that is, was not called before, has no limit, or was called at least its
-- interval ago.
pub delay-IsLeast :
    (p : EvaluationPacer) (plan : EvaluationPlan) (target : String) (input : List ℕ) (now d : ℕ)
    → (applies plan.block input || applies plan.ignore input) ≡ false
    → (delay p plan target input now ≤ d)
      ↔ All (IsDue p (now + d)) (evaluation_channels plan target)
unfolding delay
delay-IsLeast p plan target input now d e =
    let all = longest_wait_iff p now 0 d (evaluation_channels plan target) in
    rw e (λ h. (all.0 h).1, λ h. all.1 (omega arith, h))
