-- ===== src/Examples/Execute.antt =====
-- A request that fails over to a second channel: internal/audit/router.go, `executeRoute`.
use deepseek_moderation_api.Prelude.{
  ℕ, zero, suc, ◌+◌, ◌≡◌, refl, true, false, List, [], ◌∷◌, Option, some, none, arith, Result, ok,
  err, problem, String,
}
use deepseek_moderation_api.Prelude.Int.{pos}
use deepseek_moderation_api.Pricing.{Usage}
use deepseek_moderation_api.Router.State.{
  RouteCandidate, Routes, fresh_state, rpm_used, adopt, forget, trim_calls, expire,
}
use deepseek_moderation_api.Router.Tier.{
  PolicySettings, new_route_progress, select_tier, lowest_open, at_level, has_lower, gives_up,
  keep_tier, half_left, tier_deadline, attempts_per_priority, priority_timeout, failure_threshold,
  failure_cooldown,
}
use deepseek_moderation_api.Router.Acquire.{
  acquire_route, scan, total_weight, choose, visit, judge, choose_tier, pick_channel,
  unlimited_weight, reserve_channel,
}
use deepseek_moderation_api.Router.Release.{
  release, release_state, account, judge_outcome, cool_down, cooldown_of, insert_call,
}
use deepseek_moderation_api.Router.Load.{HasLoad}
use deepseek_moderation_api.Execute.{
  active, same_key, Round, Execution, retryable, error_code, final_answer, released_error,
  add_usage,
}
use deepseek_moderation_api.Execute.Answer.{after_call, decide, infer}
use deepseek_moderation_api.Execute.Rounds.{
  check_active, check_credential, check_reservation, with_ticket, acquired, start_round, round,
  execute,
}
use deepseek_moderation_api.Execute.Refunds.{execute-refunds}
use deepseek_moderation_api.Execute.Ends.{execute-total}
use deepseek_moderation_api.Execute.Verdict.{execute-IsConcluded, IsConcluded}

abbrev primary : RouteCandidate
primary = record {
  channel = record { id = "primary"; max_concurrency = 2; rpm = 60; revision = 1 };
  binding = record { priority = 0; weight = 3 };
  signature = "deepseek";
}

abbrev backup : RouteCandidate
backup = record {
  channel = record { id = "backup"; max_concurrency = 1; rpm = 0; revision = 1 };
  binding = record { priority = 10; weight = 1 };
  signature = "grok";
}

abbrev candidates : List RouteCandidate
candidates = primary ∷ backup ∷ []

abbrev settings : PolicySettings
settings = record {
  max_attempts_per_priority = 2;
  priority_timeout_ms = 4000;
  failure_threshold = 3;
  failure_cooldown_minutes = 30;
}

abbrev call_usage : Usage
call_usage = record {
  prompt_tokens = pos 300;
  completion_tokens = pos 20;
  total_tokens = pos 320;
  cache_hit_tokens = none;
  cache_miss_tokens = none;
  reasoning_tokens = pos 0;
  reported = true;
  attempted = true;
}

-- A verdict is a confidence in percent here.
abbrev answering : ℕ → Result ℕ → Round ℕ
answering now answer = record {
  expired = false;
  slots = 0;
  slot_capacity = 16;
  others = λ routes. routes;
  now = now;
  draw = λ n. 0;
  query = active;
  credential = same_key;
  preparation_expired = false;
  reservation = ok tt;
  attempt_at = now;
  answer = answer;
  cooldown = 0;
  usage = call_usage;
  context_error = none;
  failover_expired = false;
  done_at = now + 5;
  settled = true;
}

abbrev rounds : ℕ → Round ℕ
rounds zero = answering 1_000 (err (problem 503 "upstream_unavailable"))
rounds (suc n) = answering 2_000 (ok 93)

abbrev arrived : Execution
arrived = record {
  routes = λ _. fresh_state;
  used = [];
  last_error = problem 503 "no_available_channel";
  progress = new_route_progress 0 3;
  attempt_count = 0;
  attempts = [];
  usage = record {
    prompt_tokens = pos 0;
    completion_tokens = pos 0;
    total_tokens = pos 0;
    reasoning_tokens = pos 0;
    reported = true;
  };
}

abbrev end_of : Option (Execution × Result ℕ) → Execution
end_of none = arrived
end_of (some e) = e.0

abbrev finished : Execution
finished = end_of (execute 3 3 candidates settings rounds arrived)

second_answers : execute 3 3 candidates settings rounds arrived ≡ some (finished, ok 93)
unfolding execute round start_round acquired with_ticket check_active check_credential
    check_reservation infer decide after_call final_answer released_error error_code retryable
    add_usage acquire_route scan visit judge adopt forget trim_calls expire rpm_used choose_tier
    select_tier new_route_progress lowest_open at_level has_lower gives_up keep_tier half_left
    tier_deadline attempts_per_priority priority_timeout failure_threshold failure_cooldown
    pick_channel unlimited_weight total_weight choose reserve_channel release release_state account
    judge_outcome cool_down cooldown_of insert_call
second_answers = refl

abbrev no_loads : ℕ → String → ℕ
no_loads k id = 0

execute-refunds_example : (k : ℕ) × HasLoad (no_loads k "primary") (finished.routes "primary")
execute-refunds_example =
    execute-refunds 3 3 candidates settings rounds no_loads arrived finished (ok 93) "primary"
      others_hold (refl, refl) second_answers
  where
    others_hold :
        (k : ℕ) (id : String) (routes : Routes)
        → HasLoad 0 (routes id)
        → HasLoad 0 ((rounds k).others routes id)
    others_hold zero id routes h = h
    others_hold (suc k) id routes h = h

execute-total_example :
    (y : Execution) × (result : Result ℕ) × (execute 3 3 candidates settings rounds arrived
      ≡ some (y, result))
execute-total_example = execute-total 3 3 candidates settings rounds arrived (omega arith)

execute-IsConcluded_example : IsConcluded {A = ℕ} candidates settings rounds 3 finished (ok 93)
execute-IsConcluded_example =
    execute-IsConcluded 3 3 candidates settings rounds arrived finished (ok 93) refl refl
      second_answers
