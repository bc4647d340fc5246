-- ===== src/Examples/Pacing.antt =====
-- An evaluation on one channel with 60 calls a minute: internal/audit/evaluation_pacing.go.
use deepseek_moderation_api.Prelude.{
  ℕ, ◌+◌, ◌*◌, ◌≤◌, ◌≡◌, refl, Bool, true, false, ◌||◌, [], ◌∷◌, Option, none, some, arith, str_eq,
  ◌↔◌, All,
}
use deepseek_moderation_api.Clock.{second, minute}
use deepseek_moderation_api.Keywords.{contains, KeywordRule, applies}
use deepseek_moderation_api.Pacing.{
  PacedChannel, EvaluationPlan, EvaluationPacer, evaluation_interval, evaluation_channels,
  filter_usable, longest_wait, delay, longest_interval, calls_per_target, add_targets,
  evaluation_timeout,
}
use deepseek_moderation_api.Pacing.Due.{IsDue, delay-IsLeast}
use deepseek_moderation_api.Pacing.Timeout.{IsPast, delay-le-evaluation_timeout}

abbrev no_rule : KeywordRule
no_rule = record { enabled = false; mode = contains; keywords = [] }

abbrev first : PacedChannel
first = record { id = "first"; enabled = true; credential_active = true; rpm = 60 }

abbrev plan : EvaluationPlan
plan = record {
  block = no_rule;
  ignore = no_rule;
  bindings = record { channel_id = "first"; enabled = true } ∷ [];
  channels = first ∷ [];
  samples = 2;
  targets = "first" ∷ [];
  repetitions = 1;
  retries = 1;
}

abbrev called_at : Bool → Option ℕ
called_at true = some (100 * second)
called_at false = none

abbrev pacer : EvaluationPacer
pacer id = called_at (str_eq id "first")

-- A second after the call, two of the three seconds between calls are left.
two_seconds : delay pacer plan "first" (b'x' ∷ []) (101 * second) ≡ 2 * second
unfolding delay applies filter_usable longest_wait evaluation_interval
two_seconds = refl

-- Four calls, three seconds apart, and one second of back-off for each sample.
timeout : evaluation_timeout plan ≡ 30 * minute + 12 * second + 2 * second
unfolding evaluation_timeout add_targets longest_interval filter_usable evaluation_interval
timeout = refl

undecided : (applies plan.block (b'x' ∷ []) || applies plan.ignore (b'x' ∷ [])) ≡ false
unfolding applies
undecided = refl

called_at-IsPast : (b : Bool) → IsPast (called_at b) (101 * second)
called_at-IsPast true = omega arith
called_at-IsPast false = tt

delay-IsLeast_example :
    (delay pacer plan "first" (b'x' ∷ []) (101 * second) ≤ 2 * second)
    ↔ All (IsDue pacer (101 * second + 2 * second)) (evaluation_channels plan "first")
delay-IsLeast_example =
    delay-IsLeast pacer plan "first" (b'x' ∷ []) (101 * second) (2 * second) undecided

delay-le-evaluation_timeout_example :
    30 * minute + delay pacer plan "first" (b'x' ∷ []) (101 * second) * calls_per_target plan
    ≤ evaluation_timeout plan
delay-le-evaluation_timeout_example =
    delay-le-evaluation_timeout pacer plan [] "first" [] (b'x' ∷ []) (101 * second) refl
      (λ id. called_at-IsPast (str_eq id "first"))
