-- ===== src/Pacing.antt =====
-- How an evaluation spaces its calls: internal/audit/evaluation_pacing.go.
pub mod Due
pub mod Timeout
use deepseek_moderation_api.Prelude.{
  ℕ, ◌+◌, ◌-◌, ◌*◌, ◌/◌, max, Bool, true, false, ◌&&◌, ◌||◌, List, [], ◌∷◌, Option, none, some, ltb,
  ◌==◌, if◌then◌else◌, any, length, String, str_eq,
}
use deepseek_moderation_api.Clock.{second, minute}
use deepseek_moderation_api.Keywords.{KeywordRule, applies}

-- The fields of `ModelChannel` that pacing reads; a limit that is not positive is 0.
pub record PacedChannel : Type 0 where
  pub id : String
  pub enabled : Bool
  pub credential_active : Bool
  pub rpm : ℕ

pub record PacedBinding : Type 0 where
  pub channel_id : String
  pub enabled : Bool

-- `evaluationPlan`, with its samples as a number.
pub record EvaluationPlan : Type 0 where
  pub block : KeywordRule
  pub ignore : KeywordRule
  pub bindings : List PacedBinding
  pub channels : List PacedChannel
  pub samples : ℕ
  pub targets : List String
  pub repetitions : ℕ
  pub retries : ℕ

-- When each channel was last called.
abbrev pub EvaluationPacer : Type 0
EvaluationPacer = String → Option ℕ

unfoldable pub evaluation_interval : ℕ → ℕ
evaluation_interval rpm = if rpm == 0 then 0 else minute / rpm + 2 * second

abbrev pub is_usable : EvaluationPlan → (target : String) → PacedChannel → Bool
is_usable plan target c =
    c.enabled
    && c.credential_active
    && (str_eq target "" || str_eq c.id target)
    && any (λ b. b.enabled && str_eq b.channel_id c.id) plan.bindings

unfoldable pub filter_usable :
    EvaluationPlan → (target : String) → List PacedChannel → List PacedChannel
filter_usable plan target [] = []
filter_usable plan target (c ∷ cs) =
    let rest = filter_usable plan target cs in if is_usable plan target c then c ∷ rest else rest

abbrev pub evaluation_channels : EvaluationPlan → (target : String) → List PacedChannel
evaluation_channels plan target = filter_usable plan target plan.channels

-- One candidate in the loop of `delay`.
abbrev pub wait_more : Option ℕ → (rpm now delay : ℕ) → ℕ
wait_more none rpm now delay = delay
wait_more (some last) rpm now delay =
    if ltb 0 rpm then max delay (last + evaluation_interval rpm - now) else delay

unfoldable pub longest_wait : EvaluationPacer → (now delay : ℕ) → List PacedChannel → ℕ
longest_wait p now delay [] = delay
longest_wait p now delay (c ∷ cs) = longest_wait p now (wait_more (p c.id) c.rpm now delay) cs

unfoldable pub delay : EvaluationPacer → EvaluationPlan → (target : String) → List ℕ → (now : ℕ) → ℕ
delay p plan target input now =
    if applies plan.block input || applies plan.ignore input
    then 0
    else longest_wait p now 0 (evaluation_channels plan target)

unfoldable pub longest_interval : ℕ → List PacedChannel → ℕ
longest_interval interval [] = interval
longest_interval interval (c ∷ cs) = longest_interval (max interval (evaluation_interval c.rpm)) cs

-- The calls that one target makes at most.
abbrev pub calls_per_target : EvaluationPlan → ℕ
calls_per_target plan = plan.samples * plan.repetitions * (plan.retries + 1)

unfoldable pub add_targets : EvaluationPlan → (budget : ℕ) → List String → ℕ
add_targets plan budget [] = budget
add_targets plan budget (t ∷ ts) =
    add_targets plan
      (budget + longest_interval 0 (evaluation_channels plan t) * calls_per_target plan) ts

unfoldable pub evaluation_timeout : EvaluationPlan → ℕ
evaluation_timeout plan =
    add_targets plan (30 * minute) plan.targets
    + plan.samples
      * length plan.targets
      * plan.repetitions
      * plan.retries
      * (plan.retries + 1)
      / 2
      * second
