-- ===== src/Router/Cooldown.antt =====
-- How the end of a call opens, keeps and closes a channel's cooldown (internal/audit/router.go).
use deepseek_moderation_api.Prelude.{
  ℕ, ◌+◌, ◌≤◌, ◌<◌, ◌≡◌, refl, Bool, true, false, not, ◌&&◌, ◌||◌, arith, leb, if◌then◌else◌, inl,
  inr, Bool-cases, String, str_eq, eq_iff, ◌∙◌,
}
use deepseek_moderation_api.Router.State.{RouteCandidate, ChannelState, adopt}
use deepseek_moderation_api.Router.Tier.{PolicySettings, failure_threshold, failure_cooldown}
use deepseek_moderation_api.Router.Acquire.{skip, visit, Ticket}
use deepseek_moderation_api.Router.Release.{
  CallError, success, cancelled, deadline_exceeded, upstream, account, cool_down, cooldown_of,
  judge_outcome, release_state, is_success,
}

cool_down-le :
    (settings : PolicySettings) (t : Ticket) (now asked : ℕ) (st : ChannelState)
    → st.until ≤ (cool_down settings t now asked st).until
unfolding cool_down
cool_down-le settings t now asked st = ground arith

account-until :
    (t : Ticket) (e : CallError) (sent : Bool) (st : ChannelState)
    → (account t e sent st).until ≡ st.until
unfolding account
account-until t e sent st = ground arith

judged-le :
    (settings : PolicySettings) (t : Ticket) (now asked : ℕ) (code : String) (st : ChannelState)
    → st.until ≤ (judge_outcome settings t now (upstream code asked) st).until
unfolding judge_outcome
judged-le settings t now asked code st = cool_down-le settings t now asked _

unprobed-le :
    (settings : PolicySettings) (t : Ticket) (now asked : ℕ) (code : String) (sent : Bool)
    (st : ChannelState) (n : ℕ)
    → st.until ≡ n
    → n
      ≤ (if not sent
          then if t.is_probe then record st { probe = false } else st
          else judge_outcome settings t now
              (upstream code asked)
              (if t.is_probe then record st { probe = false } else st)).until
unprobed-le settings t now asked code sent st n e = ground (
  arith,
  judged-le settings t now asked code st,
  judged-le settings t now asked code (record st { probe = false }),
)

-- Only a success ends a cooldown early, and only if the call was sent and made for the
-- configuration that the channel still has: any other end of a call leaves `until` or moves it
-- later.
pub release_state-until_le :
    (settings : PolicySettings) (t : Ticket) (now : ℕ) (e : CallError) (sent : Bool)
    (st : ChannelState)
    → (is_success e && sent && str_eq st.signature t.candidate.signature) ≡ false
    → st.until ≤ (release_state settings t now e sent st).until
unfolding release_state judge_outcome
release_state-until_le settings t now success sent st h =
    ground (arith, account-until t success sent st)
release_state-until_le settings t now cancelled sent st h =
    ground (arith, account-until t cancelled sent st)
release_state-until_le settings t now deadline_exceeded sent st h =
    ground (arith, account-until t deadline_exceeded sent st)
release_state-until_le settings t now (upstream code asked) sent st h =
    elim (Bool-cases (str_eq st.signature t.candidate.signature)) [
      | inl same ↦ rw same (
          unprobed-le settings t now asked code sent (account t (upstream code asked) sent st)
            st.until (account-until t (upstream code asked) sent st))
      | inr changed ↦ rw changed (omega (arith, account-until t (upstream code asked) sent st))
    ]

pub account-consecutive :
    (t : Ticket) (e : CallError) (sent : Bool) (st : ChannelState)
    → ((account t e sent st).consecutive ≡ st.consecutive)
      × ((account t e sent st).signature ≡ st.signature)
      × ((account t e sent st).revision ≡ st.revision)
unfolding account
account-consecutive t e sent st = ground arith

failure_cooldown-pos : (settings : PolicySettings) → 0 < failure_cooldown settings
unfolding failure_cooldown
failure_cooldown-pos settings = ground arith

cooldown_of-ge :
    (settings : PolicySettings) (t : Ticket) (consecutive asked : ℕ)
    → (t.is_probe || leb (failure_threshold settings) consecutive) ≡ true
    → failure_cooldown settings ≤ cooldown_of settings t consecutive asked
unfolding cooldown_of
cooldown_of-ge settings t consecutive asked many = rw many (omega arith)

cool_down-opens :
    (settings : PolicySettings) (t : Ticket) (now asked c : ℕ) (st : ChannelState)
    → t.single ≡ false
    → 0 < c
    → c ≤ cooldown_of settings t st.consecutive asked
    → now + c ≤ (cool_down settings t now asked st).until
unfolding cool_down
cool_down-opens settings t now asked c st single some_time h = ground arith

-- A failed probe, and a failure that reaches the threshold, open the cooldown of the policy.
judge_outcome-opens :
    (settings : PolicySettings) (t : Ticket) (now asked : ℕ) (code : String) (st : ChannelState)
    → t.single ≡ false
    → (t.is_probe || leb (failure_threshold settings) (st.consecutive + 1)) ≡ true
    → now + failure_cooldown settings
      ≤ (judge_outcome settings t now (upstream code asked) st).until
unfolding judge_outcome
judge_outcome-opens settings t now asked code st single many =
    cool_down-opens settings t now asked _ _ single (failure_cooldown-pos settings)
      (cooldown_of-ge settings t (st.consecutive + 1) asked many)

-- While a channel cools down, no round on its configuration makes it eligible.
pub visit-cooling :
    (now : ℕ) (c : RouteCandidate) (st : ChannelState)
    → st.signature ≡ c.signature
    → now < st.until
    → (visit false now c st).1 ≡ skip
unfolding visit adopt
visit-cooling now c st same cooling = ground (arith, eq_iff st.signature c.signature)

-- The state that the outcome is judged on, for what the test of the threshold reads.
judged : Ticket → CallError → ChannelState → ChannelState
judged t e st =
    if t.is_probe then record (account t e true st) { probe = false } else account t e true st

judged-fields :
    (t : Ticket) (e : CallError) (st : ChannelState)
    → ((judged t e st).consecutive ≡ st.consecutive) × ((judged t e st).signature ≡ st.signature)
unfolding judged
judged-fields t e st = ground (arith, account-consecutive t e true st)

release_state-current :
    (settings : PolicySettings) (t : Ticket) (now : ℕ) (e : CallError) (st : ChannelState)
    → str_eq st.signature t.candidate.signature ≡ true
    → release_state settings t now e true st ≡ judge_outcome settings t now e (judged t e st)
unfolding release_state judged
release_state-current settings t now e st same = rw same refl

pub judge_outcome-signature :
    (settings : PolicySettings) (t : Ticket) (now asked : ℕ) (code : String) (st : ChannelState)
    → (judge_outcome settings t now (upstream code asked) st).signature ≡ st.signature
unfolding judge_outcome cool_down
judge_outcome-signature settings t now asked code st = ground arith

-- The state after a failed probe, or after the failure that reaches the threshold.
pub failed-until :
    (settings : PolicySettings) (t : Ticket) (now asked : ℕ) (code : String) (st : ChannelState)
    → t.single ≡ false
    → str_eq st.signature t.candidate.signature ≡ true
    → (t.is_probe || leb (failure_threshold settings) (st.consecutive + 1)) ≡ true
    → ((release_state settings t now (upstream code asked) true st).signature
        ≡ t.candidate.signature)
      × (now + failure_cooldown settings
          ≤ (release_state settings t now (upstream code asked) true st).until)
failed-until settings t now asked code st single same many =
    let e = upstream code asked in
    let (counted, kept) = judged-fields t e st in
    rw (release_state-current settings t now e st same) (
      judge_outcome-signature settings t now asked code (judged t e st)
          ∙ kept
          ∙ (eq_iff _ _).0 same,
      judge_outcome-opens settings t now asked code (judged t e st) single (rw counted many),
    )
