-- ===== src/Evaluation/Scores.antt =====
-- The scores of the targets: `evaluationScores` of internal/audit/evaluation_report.go. A map is a
-- function with the list of its keys in the order in which they came.
use deepseek_moderation_api.Prelude.{
  ℕ, ◌+◌, Bool, true, false, not, ◌&&◌, ◌||◌, List, [], ◌∷◌, ◌++◌, Option, none, some,
  if◌then◌else◌, String, str_eq, any,
}
use deepseek_moderation_api.Evaluation.Costs.{CostView}

-- `EvaluationResult`, as far as the scores read it; no known cost is the empty text.
pub record EvaluationResult : Type 0 where
  pub sample_id : String
  pub target : String
  pub expected : String
  pub status : String
  pub has_confidence : Bool
  pub flagged : Bool
  pub keyword_ignored : Bool
  pub keyword_blocked : Bool
  pub latency_ms : ℕ
  pub known_cost : Option ℕ
  pub cost : Option CostView

pub record EvaluationScore : Type 0 where
  pub target : String
  pub total : ℕ
  pub processed : ℕ
  pub valid : ℕ
  pub errors : ℕ
  pub labelled : ℕ
  pub correct : ℕ
  pub allow_samples : ℕ
  pub flagged_samples : ℕ
  pub false_positives : ℕ
  pub false_negatives : ℕ
  pub pending_costs : ℕ

-- The verdicts that a sample has got: the bits 1 and 2 of the code's mask.
pub record Verdicts : Type 0 where
  pub allowed : Bool
  pub flagged : Bool

pub record Accumulator : Type 0 where
  pub score : EvaluationScore
  pub cost : ℕ
  pub latency : ℕ
  pub seen : String → Verdicts
  pub samples : List String

abbrev pub fresh_score : String → EvaluationScore
fresh_score target = record {
  target = target;
  total = 0;
  processed = 0;
  valid = 0;
  errors = 0;
  labelled = 0;
  correct = 0;
  allow_samples = 0;
  flagged_samples = 0;
  false_positives = 0;
  false_negatives = 0;
  pending_costs = 0;
}

abbrev pub fresh_group : String → Accumulator
fresh_group target = record {
  score = fresh_score target;
  cost = 0;
  latency = 0;
  seen = λ id. record { allowed = false; flagged = false };
  samples = [];
}

abbrev pub is_waiting : EvaluationResult → Bool
is_waiting r = str_eq r.status "pending" || str_eq r.status "running" || str_eq r.status "skipped"

abbrev pub is_failed : EvaluationResult → Bool
is_failed r =
    not (str_eq r.status "completed")
    || not r.has_confidence && not r.keyword_ignored && not r.keyword_blocked

abbrev pub amount_of : CostView → Option ℕ
amount_of c = c.amount

abbrev pub known_of : Option ℕ → Option ℕ → ℕ
known_of (some known) amount = known
known_of none (some amount) = amount
known_of none none = 0

abbrev pub is_none : Option ℕ → Bool
is_none none = true
is_none (some n) = false

-- What the costs of a result add: a pending cost, and the known amount.
unfoldable pub pending_of : Option CostView → Bool
pending_of none = false
pending_of (some c) = is_none c.amount

unfoldable pub charge_of : (known : Option ℕ) → Option CostView → ℕ
charge_of known none = 0
charge_of known (some c) = known_of known c.amount

abbrev pub one_if : Bool → ℕ
one_if b = if b then 1 else 0

unfoldable pub count_cost : EvaluationResult → Accumulator → Accumulator
count_cost r a = record a {
  score = record a.score {
    total = a.score.total + 1;
    pending_costs = a.score.pending_costs + one_if (pending_of r.cost);
  };
  cost = a.cost + charge_of r.known_cost r.cost;
}

abbrev pub add_key : String → List String → List String
add_key id ids = if any (str_eq id) ids then ids else ids ++ id ∷ []

-- `group.seen[result.SampleID] |= ...`
unfoldable pub note_verdict : EvaluationResult → Accumulator → Accumulator
note_verdict r a = record a {
  seen = λ id.
      if str_eq r.sample_id id
      then if r.flagged
        then record (a.seen id) { flagged = true }
        else record (a.seen id) { allowed = true }
      else a.seen id;
  samples = add_key r.sample_id a.samples;
}

unfoldable pub label : EvaluationResult → EvaluationScore → EvaluationScore
label r s =
    if str_eq r.expected "allow"
    then record s {
      labelled = s.labelled + 1;
      allow_samples = s.allow_samples + 1;
      false_positives = s.false_positives + one_if r.flagged;
      correct = s.correct + one_if (not r.flagged);
    }
    else if str_eq r.expected "flagged"
    then record s {
      labelled = s.labelled + 1;
      flagged_samples = s.flagged_samples + 1;
      false_negatives = s.false_negatives + one_if (not r.flagged);
      correct = s.correct + one_if r.flagged;
    }
    else s

unfoldable pub count_processed : EvaluationResult → Accumulator → Accumulator
unfolding label
count_processed r a =
    let done = record a {
      score = record a.score { processed = a.score.processed + 1 };
      latency = a.latency + r.latency_ms;
    } in
    if is_failed r
    then record done { score = record done.score { errors = done.score.errors + 1 } }
    else note_verdict r
        (record done { score = label r (record done.score { valid = done.score.valid + 1 }) })

-- A round of the loop, on the group of the result's target.
unfoldable pub add_result : EvaluationResult → Accumulator → Accumulator
unfolding count_cost count_processed
add_result r a = if is_waiting r then count_cost r a else count_processed r (count_cost r a)

-- The map of the groups.
pub record Groups : Type 0 where
  pub group : String → Option Accumulator
  pub targets : List String

abbrev pub group_or : String → Option Accumulator → Accumulator
group_or target none = fresh_group target
group_or target (some a) = a

unfoldable pub add_to_groups : EvaluationResult → Groups → Groups
add_to_groups r g = record {
  group = λ t.
      if str_eq r.target t
      then some (add_result r (group_or r.target (g.group r.target)))
      else g.group t;
  targets = add_key r.target g.targets;
}

unfoldable pub group_results : Groups → List EvaluationResult → Groups
group_results g [] = g
group_results g (r ∷ rs) = group_results (add_to_groups r g) rs

-- What a target is reported with: its average latency is `latency` by `processed`, if that is not 0.
pub record TargetScore : Type 0 where
  pub score : EvaluationScore
  pub known_cost : ℕ
  pub latency : ℕ
  pub unstable_samples : ℕ

abbrev pub both : Verdicts → Bool
both v = v.allowed && v.flagged

unfoldable pub unstable : (String → Verdicts) → List String → ℕ
unstable seen [] = 0
unstable seen (id ∷ ids) = one_if (both (seen id)) + unstable seen ids

unfoldable pub finish : Accumulator → TargetScore
finish a = record {
  score = a.score;
  known_cost = a.cost;
  latency = a.latency;
  unstable_samples = unstable a.seen a.samples;
}

abbrev pub no_groups : Groups
no_groups = record { group = λ t. none; targets = [] }

-- `evaluationScores` of one target; none if no result has it.
unfoldable pub evaluation_score : List EvaluationResult → (target : String) → Option TargetScore
evaluation_score results target = elim ((group_results no_groups results).group target) [
  | none ↦ none
  | some a ↦ some (finish a)
]
