-- ===== src/Execute/Answer.antt =====
-- One call of a provider and what follows it: `executeRoute` of internal/audit/router.go, lines 724
-- to 794.
use deepseek_moderation_api.Prelude.{
  ◌+◌, Bool, true, false, [], ◌∷◌, ◌++◌, Option, none, some, if◌then◌else◌, String, problem, Result,
  ok, err,
}
use deepseek_moderation_api.Router.Tier.{PolicySettings}
use deepseek_moderation_api.Router.Acquire.{Ticket}
use deepseek_moderation_api.Router.Release.{release}
use deepseek_moderation_api.Execute.{
  Round, Execution, Next, resume, stop, retryable, error_code, final_answer, released_error,
  add_usage, count_attempt,
}

abbrev pub code_of : {A : Type 0} → Result A → Option String
code_of (ok a) = none
code_of (err e) = some (error_code e)

-- The state after the call, before its result decides.
unfoldable pub after_call : {A : Type 0} → PolicySettings → Round A → Ticket → Execution → Execution
after_call settings r t x =
    let sent = r.usage.attempted in
    let t' = record t { attempt_at = r.attempt_at } in
    record x {
      routes = release settings t' r.done_at (released_error r) sent x.routes;
      attempt_count = if sent then x.attempt_count + 1 else x.attempt_count;
      progress = if sent then count_attempt x.progress t.candidate.binding.priority else x.progress;
      attempts =
          x.attempts
          ++ record {
            channel_id = t.candidate.channel.id;
            sent = sent;
            usage = r.usage;
            error_code = code_of (final_answer r);
          }
            ∷ [];
      usage = add_usage x.usage r.usage;
    }

unfoldable pub decide : {A : Type 0} → Bool → Result A → Execution → Next A
decide false answer x = stop x (err (problem 503 "cost_record_unavailable"))
decide true (ok a) x = stop x (ok a)
decide true (err e) x =
    let x' = record x { last_error = e } in if retryable e then resume x' else stop x' (err e)

unfoldable pub infer : {A : Type 0} → PolicySettings → Round A → Ticket → Execution → Next A
infer settings r t x = decide r.settled (final_answer r) (after_call settings r t x)
