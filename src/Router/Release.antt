-- ===== src/Router/Release.antt =====
-- The end of a call: the function that `acquireRoute` returns (internal/audit/router.go).
use deepseek_moderation_api.Prelude.{
  ℕ, ◌+◌, ◌-◌, Bool, true, false, ◌&&◌, ◌||◌, not, List, [], ◌∷◌, ltb, leb, if◌then◌else◌, max,
  String, str_eq,
}
use deepseek_moderation_api.Clock.{after}
use deepseek_moderation_api.Router.State.{ChannelState, Routes, update}
use deepseek_moderation_api.Router.Tier.{PolicySettings, failure_threshold, failure_cooldown}
use deepseek_moderation_api.Router.Acquire.{Ticket}

-- The error that the call ended with. `upstream` carries the code of `errorCode` and the cooldown
-- of an `upstreamFailure`, 0 for any other error.
pub data CallError : Type 0 where
  success : CallError
  cancelled : CallError
  deadline_exceeded : CallError
  upstream : String → ℕ → CallError

abbrev pub is_success : CallError → Bool
is_success success = true
is_success _ = false

-- slices.BinarySearchFunc and Insert: in front of the first call that is not earlier.
unfoldable pub insert_call : ℕ → List ℕ → List ℕ
insert_call t [] = t ∷ []
insert_call t (x ∷ xs) = if leb t x then t ∷ x ∷ xs else x ∷ insert_call t xs

-- The counters, kept whatever the configuration has become in between.
unfoldable pub account : Ticket → CallError → Bool → ChannelState → ChannelState
account t e sent st =
    let back = record st { in_flight = st.in_flight - 1; rpm_pending = st.rpm_pending - 1 } in
    if sent
    then record back {
      rpm_calls = insert_call t.attempt_at st.rpm_calls;
      calls = st.calls + 1;
      failures = if is_success e then st.failures else st.failures + 1;
    }
    else back

-- The cooldown that a failure asks for, once `consecutive` counts it.
unfoldable pub cooldown_of : PolicySettings → Ticket → (consecutive asked : ℕ) → ℕ
unfolding failure_threshold failure_cooldown
cooldown_of settings t consecutive asked =
    if t.is_probe || leb (failure_threshold settings) consecutive
    then max asked (failure_cooldown settings)
    else asked

unfoldable pub cool_down : PolicySettings → Ticket → (now asked : ℕ) → ChannelState → ChannelState
unfolding cooldown_of
cool_down settings t now asked st =
    let c = cooldown_of settings t st.consecutive asked in
    if t.single
    then st
    else if ltb 0 c && after (now + c) st.until
    then record st { until = now + c }
    else st

-- The outcome of a call that was sent, on the configuration that it was made for.
unfoldable pub judge_outcome :
    PolicySettings → Ticket → (now : ℕ) → CallError → ChannelState → ChannelState
judge_outcome settings t now success st = record st {
  last_success = now;
  last_error = "";
  consecutive = 0;
  until = 0;
}
judge_outcome settings t now cancelled st = record st {
  last_failure = now;
  last_error = "request_cancelled";
}
judge_outcome settings t now deadline_exceeded st = record st {
  last_failure = now;
  last_error = "audit_timeout";
}
judge_outcome settings t now (upstream code asked) st =
    cool_down settings t now asked
      (record st { last_failure = now; last_error = code; consecutive = st.consecutive + 1 })

unfoldable pub release_state :
    PolicySettings → Ticket → (now : ℕ) → CallError → Bool → ChannelState → ChannelState
release_state settings t now e sent st =
    let counted = account t e sent st in
    let unprobed = if t.is_probe then record counted { probe = false } else counted in
    if not (str_eq st.signature t.candidate.signature)
    then counted
    else if not sent
    then unprobed
    else judge_outcome settings t now e unprobed

unfoldable pub release : PolicySettings → Ticket → (now : ℕ) → CallError → Bool → Routes → Routes
release settings t now e sent routes =
    update routes t.candidate.channel.id
      (release_state settings t now e sent (routes t.candidate.channel.id))
