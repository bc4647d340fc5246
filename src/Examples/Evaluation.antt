-- ===== src/Examples/Evaluation.antt =====
-- Three results of one target: internal/audit/evaluation_report.go.
use deepseek_moderation_api.Prelude.{
  ◌≡◌, refl, Bool, true, false, List, [], ◌∷◌, Option, none, some, String,
}
use deepseek_moderation_api.Evaluation.Costs.{calculated}
use deepseek_moderation_api.Evaluation.Scores.{
  EvaluationResult, TargetScore, evaluation_score, group_results, add_to_groups, add_result,
  count_cost, count_processed, note_verdict, label, finish, unstable, pending_of, charge_of,
}
use deepseek_moderation_api.Evaluation.Tally.{IsTally, evaluation_score-IsTally}

abbrev result : (sample status : String) → (flagged : Bool) → EvaluationResult
result sample status flagged = record {
  sample_id = sample;
  target = "primary";
  expected = "flagged";
  status = status;
  has_confidence = true;
  flagged = flagged;
  keyword_ignored = false;
  keyword_blocked = false;
  latency_ms = 5;
  known_cost = none;
  cost = some (record { status = calculated; amount = some 7; reserved = 9 });
}

abbrev results : List EvaluationResult
results =
    result "s1" "completed" true ∷ result "s1" "completed" false ∷ result "s2" "running" false ∷ []

abbrev score : Option TargetScore
score = evaluation_score results "primary"

abbrev expected_score : TargetScore
expected_score = record {
  score = record {
    target = "primary";
    total = 3;
    processed = 2;
    valid = 2;
    errors = 0;
    labelled = 2;
    correct = 1;
    allow_samples = 0;
    flagged_samples = 2;
    false_positives = 0;
    false_negatives = 1;
    pending_costs = 0;
  };
  known_cost = 21;
  latency = 10;
  unstable_samples = 1;
}

one_unstable : score ≡ some expected_score
unfolding evaluation_score group_results add_to_groups add_result count_cost count_processed
    note_verdict label finish unstable pending_of charge_of
one_unstable = refl

evaluation_score-IsTally_example :
    (s : TargetScore) × (evaluation_score results "primary" ≡ some s) × IsTally "primary" results s
evaluation_score-IsTally_example = evaluation_score-IsTally results "primary" refl
