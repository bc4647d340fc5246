-- ===== src/Pacing/Timeout.antt =====
-- The time limit of an evaluation covers its waits (internal/audit/evaluation_pacing.go).
use deepseek_moderation_api.Prelude.{
  ℕ, ◌+◌, ◌-◌, ◌*◌, ◌≤◌, ◌≡◌, ap, max, ◌||◌, List, [], ◌∷◌, ◌++◌, Option, none, some, arith, ltb,
  String, Bool-cases, inl, inr,
}
use deepseek_moderation_api.Clock.{minute}
use deepseek_moderation_api.Keywords.{applies}
use deepseek_moderation_api.Pacing.{
  EvaluationPacer, EvaluationPlan, PacedChannel, evaluation_interval, evaluation_channels,
  wait_more, longest_wait, delay, longest_interval, calls_per_target, add_targets,
  evaluation_timeout,
}

abbrev pub IsPast : Option ℕ → (now : ℕ) → Type 0
IsPast none now = Unit
IsPast (some t) now = t ≤ now

wait_more-le :
    (known : Option ℕ) (rpm now delay interval : ℕ)
    → IsPast known now
    → delay ≤ interval
    → wait_more known rpm now delay ≤ max interval (evaluation_interval rpm)
wait_more-le none rpm now delay interval past h = omega (arith, h)
wait_more-le (some last) rpm now delay interval past h = elim (Bool-cases (ltb 0 rpm)) [
  | inl limited ↦ rw limited (omega (arith, past, h))
  | inr free ↦ rw free (omega (arith, h))
]

longest_wait-le :
    (p : EvaluationPacer) (now delay interval : ℕ) (cs : List PacedChannel)
    → ((id : String) → IsPast (p id) now)
    → delay ≤ interval
    → longest_wait p now delay cs ≤ longest_interval interval cs
unfolding longest_wait longest_interval
longest_wait-le p now delay interval [] past h = h
longest_wait-le p now delay interval (c ∷ cs) past h =
    longest_wait-le p now (wait_more (p c.id) c.rpm now delay)
      (max interval (evaluation_interval c.rpm)) cs past
      (wait_more-le (p c.id) c.rpm now delay interval (past c.id) h)

delay-le :
    (p : EvaluationPacer) (plan : EvaluationPlan) (target : String) (input : List ℕ) (now : ℕ)
    → ((id : String) → IsPast (p id) now)
    → delay p plan target input now ≤ longest_interval 0 (evaluation_channels plan target)
unfolding delay
delay-le p plan target input now past =
    elim (Bool-cases (applies plan.block input || applies plan.ignore input)) [
      | inl decided ↦ rw decided (omega arith)
      | inr undecided ↦
          rw undecided
            (longest_wait-le p now 0 0 (evaluation_channels plan target) past (omega arith))
    ]

add_targets-ge :
    (plan : EvaluationPlan) (budget : ℕ) (ts : List String) → budget ≤ add_targets plan budget ts
unfolding add_targets
add_targets-ge plan budget [] = omega arith
add_targets-ge plan budget (t ∷ ts) =
    let more = budget + longest_interval 0 (evaluation_channels plan t) * calls_per_target plan in
    omega (arith, add_targets-ge plan more ts)

add_targets-append :
    (plan : EvaluationPlan) (budget : ℕ) (front : List String) (target : String)
    (back : List String)
    → budget + longest_interval 0 (evaluation_channels plan target) * calls_per_target plan
      ≤ add_targets plan budget (front ++ target ∷ back)
unfolding add_targets
add_targets-append plan budget [] target back = add_targets-ge plan _ back
add_targets-append plan budget (t ∷ ts) target back =
    let more = budget + longest_interval 0 (evaluation_channels plan t) * calls_per_target plan in
    omega (arith, add_targets-append plan more ts target back)

mul_right-le : (a b n : ℕ) → a ≤ b → a * n ≤ b * n
mul_right-le a b n h =
    let e : a * n + (b - a) * n ≡ (a + (b - a)) * n = omega arith in
    let whole : a + (b - a) ≡ b = omega (arith, h) in
    let scaled = ap (λ m. m * n) whole in omega (arith, e, scaled)

-- For a target of the plan and a pacer that records no call later than `now`: as many waits as the
-- target has calls, each as long as the present delay, fit into the time limit with the 30 minutes
-- of work beside them.
pub delay-le-evaluation_timeout :
    (p : EvaluationPacer) (plan : EvaluationPlan)
    → (front : List String) (target : String) (back : List String) (input : List ℕ) (now : ℕ)
    → plan.targets ≡ front ++ target ∷ back
    → ((id : String) → IsPast (p id) now)
    → 30 * minute + delay p plan target input now * calls_per_target plan ≤ evaluation_timeout plan
unfolding evaluation_timeout
delay-le-evaluation_timeout p plan front target back input now e past =
    let one = mul_right-le _ _ (calls_per_target plan) (delay-le p plan target input now past) in
    let all = add_targets-append plan (30 * minute) front target back in
    let same = ap (add_targets plan (30 * minute)) e in omega (arith, one, all, same)
