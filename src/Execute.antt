-- ===== src/Execute.antt =====
-- The attempts of one request: the loop of `executeRoute` in internal/audit/router.go (lines 643 to
-- 796). What the database, the vault and the provider answer in a round is an argument of the round;
-- other requests may change the channels' states between two rounds.
pub mod Answer
pub mod Rounds
pub mod Steps
pub mod Refunds
pub mod Ends
pub mod Accounts
pub mod Verdict
use deepseek_moderation_api.Prelude.{
  ℕ, zero, suc, ◌+◌, Bool, true, false, not, ◌&&◌, List, [], ◌∷◌, ◌++◌, Option, none, some, leb,
  ◌==◌, ◌||◌, if◌then◌else◌, String, str_eq, Failure, problem, internal, Result, ok, err,
}
use deepseek_moderation_api.Prelude.Int.{ℤ, ◌+ℤ◌}
use deepseek_moderation_api.Pricing.{Usage}
use deepseek_moderation_api.Router.State.{RouteCandidate, Routes}
use deepseek_moderation_api.Router.Tier.{PolicySettings, RouteProgress}
use deepseek_moderation_api.Router.Acquire.{Ticket, Acquired, acquire_route}
use deepseek_moderation_api.Router.Release.{
  CallError, success, cancelled, deadline_exceeded, upstream, release,
}

-- The administrative stops: a missing row counts as inactive.
pub data Query : Type 0 where
  active inactive : Query
  query_failed : Failure → Query

-- The key that the vault gives, against the one of the candidate.
pub data Credential : Type 0 where
  same_key other_key : Credential
  credential_failed : Failure → Credential

-- What one round of the loop meets, in the order of the code.
pub record Round (A : Type 0) : Type 0 where
  pub expired : Bool
  pub slots : ℕ
  pub slot_capacity : ℕ
  pub others : Routes → Routes
  pub now : ℕ
  pub draw : ℕ → ℕ
  pub query : Query
  pub credential : Credential
  pub preparation_expired : Bool
  pub reservation : Result (Unit {0})
  pub attempt_at : ℕ
  pub answer : Result A
  pub cooldown : ℕ
  pub usage : Usage
  pub context_error : Option CallError
  pub failover_expired : Bool
  pub done_at : ℕ
  pub settled : Bool

-- `AuditAttempt`, as far as it is decided here.
pub record Attempt : Type 0 where
  pub channel_id : String
  pub sent : Bool
  pub usage : Usage
  pub error_code : Option String

pub record ResponseUsage : Type 0 where
  pub prompt_tokens : ℤ
  pub completion_tokens : ℤ
  pub total_tokens : ℤ
  pub reasoning_tokens : ℤ
  pub reported : Bool

pub record Execution : Type 0 where
  pub routes : Routes
  pub used : List String
  pub last_error : Failure
  pub progress : RouteProgress
  pub attempt_count : ℕ
  pub attempts : List Attempt
  pub usage : ResponseUsage

pub data Next (A : Type 0) : Type 0 where
  resume : Execution → Next A
  stop : Execution → Result A → Next A

unfoldable pub retryable : Failure → Bool
retryable (problem status code) =
    str_eq code "upstream_timeout"
    || str_eq code "upstream_unavailable"
    || str_eq code "upstream_rate_limited"
    || str_eq code "upstream_auth_failed"
    || str_eq code "upstream_config_invalid"
    || str_eq code "invalid_model_response"
    || str_eq code "credential_unavailable"
retryable internal = false

unfoldable pub error_code : Failure → String
error_code (problem status code) = code
error_code internal = "internal_error"

abbrev pub route_preparation_timeout : Failure
route_preparation_timeout = problem 503 "route_preparation_timeout"

-- A typed error of `ReserveCost` is passed on as it is.
unfoldable pub reservation_error : Bool → Failure → Failure
reservation_error true internal = problem 503 "cost_record_unavailable"
reservation_error true (problem status code) = problem status code
reservation_error false e = e

-- The error that the attempt ends with: the request's own end wins over any answer.
unfoldable pub final_answer : {A : Type 0} → Round A → Result A
final_answer r = elim r.context_error [
  | some e ↦ err (problem 504 "audit_timeout")
  | none ↦ elim r.answer [
    | ok a ↦ ok a
    | err e ↦ err (
        if r.failover_expired && str_eq (error_code e) "upstream_timeout"
        then problem 504 "upstream_timeout"
        else e)
  ]
]

-- What the channel is told.
unfoldable pub released_error : {A : Type 0} → Round A → CallError
released_error r = elim r.context_error [
  | some e ↦ e
  | none ↦ elim (final_answer r) [ ok a ↦ success | err e ↦ upstream (error_code e) r.cooldown ]
]

unfoldable pub add_usage : ResponseUsage → Usage → ResponseUsage
add_usage u v = record {
  prompt_tokens = u.prompt_tokens +ℤ v.prompt_tokens;
  completion_tokens = u.completion_tokens +ℤ v.completion_tokens;
  total_tokens = u.total_tokens +ℤ v.total_tokens;
  reasoning_tokens = u.reasoning_tokens +ℤ v.reasoning_tokens;
  reported = u.reported && v.reported;
}

abbrev pub count_attempt : RouteProgress → ℕ → RouteProgress
count_attempt p priority = record p {
  total_attempts = p.total_attempts + 1;
  attempts = λ j. if j == priority then p.attempts j + 1 else p.attempts j;
}
