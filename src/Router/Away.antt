-- ===== src/Router/Away.antt =====
-- How long a channel that failed stays out (internal/audit/router.go).
use deepseek_moderation_api.Prelude.{
  ℕ, ◌+◌, ◌≤◌, ◌<◌, ◌≡◌, refl, sym, ◌∙◌, Bool, true, false, ◌&&◌, ◌||◌, List, [], ◌∷◌, All, arith,
  leb, String, str_eq, eq_iff,
}
use deepseek_moderation_api.Router.State.{RouteCandidate, ChannelState, adopt, trim_calls}
use deepseek_moderation_api.Router.Tier.{PolicySettings, failure_threshold, failure_cooldown}
use deepseek_moderation_api.Router.Acquire.{skip, visit, reserve_channel, Ticket}
use deepseek_moderation_api.Router.Release.{
  CallError, success, cancelled, deadline_exceeded, upstream, account, judge_outcome, release_state,
  is_success,
}
use deepseek_moderation_api.Router.Cooldown.{
  release_state-until_le, failed-until, visit-cooling, account-consecutive, judge_outcome-signature,
}

-- What requests and health reports do to the state of one channel.
pub data Move : Type 0 where
  look : (single : Bool) (now : ℕ) → RouteCandidate → Move
  reserve : (single : Bool) → Move
  finish : PolicySettings → Ticket → (now : ℕ) → CallError → (sent : Bool) → Move
  report : (now : ℕ) → Move

abbrev pub after_move : ChannelState → Move → ChannelState
after_move st (look single now c) = (visit single now c st).0
after_move st (reserve single) = reserve_channel single st
after_move st (finish settings t now e sent) = release_state settings t now e sent st
after_move st (report now) = trim_calls now st

abbrev pub after_moves : ChannelState → List Move → ChannelState
after_moves st [] = st
after_moves st (m ∷ ms) = after_moves (after_move st m) ms

-- No look with another configuration, and no success of a call on this one.
abbrev pub IsQuiet : (signature : String) → Move → Type 0
IsQuiet signature (look single now c) = c.signature ≡ signature
IsQuiet signature (reserve single) = Unit {0}
IsQuiet signature (finish settings t now e sent) =
    (is_success e && sent && str_eq signature t.candidate.signature) ≡ false
IsQuiet signature (report now) = Unit {0}

-- The channel has this configuration and cools down until this time at least.
record IsAway (signature : String) (end : ℕ) (st : ChannelState) : Type 0 where
  same : st.signature ≡ signature
  away : end ≤ st.until

visit-IsAway :
    (signature : String) (end : ℕ) (single : Bool) (now : ℕ) (c : RouteCandidate)
    (st : ChannelState)
    → c.signature ≡ signature
    → IsAway signature end st
    → IsAway signature end (visit single now c st).0
unfolding visit adopt trim_calls
visit-IsAway signature end single now c st e h =
    let kept : str_eq st.signature c.signature ≡ true =
      (eq_iff st.signature c.signature).1 (h.same ∙ sym e) in
    let s = h.same in
    let a = h.away in rw kept (record { same = ground arith; away = ground arith })

judge_outcome-kept :
    (settings : PolicySettings) (t : Ticket) (now : ℕ) (e : CallError) (st : ChannelState)
    → (judge_outcome settings t now e st).signature ≡ st.signature
judge_outcome-kept settings t now success st = unfold judge_outcome in refl
judge_outcome-kept settings t now cancelled st = unfold judge_outcome in refl
judge_outcome-kept settings t now deadline_exceeded st = unfold judge_outcome in refl
judge_outcome-kept settings t now (upstream code asked) st =
    judge_outcome-signature settings t now asked code st

release_state-kept :
    (settings : PolicySettings) (t : Ticket) (now : ℕ) (e : CallError) (sent : Bool)
    (st : ChannelState)
    → (release_state settings t now e sent st).signature ≡ st.signature
unfolding release_state
release_state-kept settings t now e sent st =
    let counted = account t e sent st in
    ground (
      arith,
      account-consecutive t e sent st,
      judge_outcome-kept settings t now e counted,
      judge_outcome-kept settings t now e (record counted { probe = false }),
    )

move-IsAway :
    (signature : String) (end : ℕ) (st : ChannelState) (m : Move)
    → IsQuiet signature m
    → IsAway signature end st
    → IsAway signature end (after_move st m)
move-IsAway signature end st (look single now c) q h =
    visit-IsAway signature end single now c st q h
move-IsAway signature end st (reserve single) q h =
    unfold reserve_channel in record { same = h.same; away = h.away }
move-IsAway signature end st (report now) q h =
    unfold trim_calls in record { same = h.same; away = h.away }
move-IsAway signature end st (finish settings t now e sent) q h =
    let later = release_state-until_le settings t now e sent st (rw h.same q) in
    let a = h.away in
    record { same = release_state-kept settings t now e sent st ∙ h.same; away = omega arith }

moves-IsAway :
    (signature : String) (end : ℕ) (st : ChannelState) (ms : List Move)
    → All (IsQuiet signature) ms
    → IsAway signature end st
    → IsAway signature end (after_moves st ms)
moves-IsAway signature end st [] q h = h
moves-IsAway signature end st (m ∷ ms) q h =
    moves-IsAway signature end (after_move st m) ms q.1 (move-IsAway signature end st m q.0 h)

-- A failed probe, or the failure that reaches the threshold of the policy, takes the channel out, if
-- the call was sent, its configuration is still the channel's, and its request had more than one
-- candidate. Whatever requests do to the channel afterwards, except that a call on this
-- configuration succeeds or a request brings another configuration, and unless the administrator
-- resets it: no round on this configuration of a request with more than one candidate makes the
-- channel eligible until the policy's cooldown has passed.
pub failed-visit-skip :
    (settings : PolicySettings) (t : Ticket) (now asked : ℕ) (code : String) (st : ChannelState)
    (ms : List Move) (c : RouteCandidate) (later : ℕ)
    → t.single ≡ false
    → str_eq st.signature t.candidate.signature ≡ true
    → (t.is_probe || leb (failure_threshold settings) (st.consecutive + 1)) ≡ true
    → All (IsQuiet t.candidate.signature) ms
    → c.signature ≡ t.candidate.signature
    → later < now + failure_cooldown settings
    → (visit false later c
        (after_moves (release_state settings t now (upstream code asked) true st) ms)).1
      ≡ skip
failed-visit-skip settings t now asked code st ms c later single same many quiet e soon =
    let (kept, opened) = failed-until settings t now asked code st single same many in
    let start = release_state settings t now (upstream code asked) true st in
    let h =
      moves-IsAway t.candidate.signature (now + failure_cooldown settings) start ms quiet
        (record { same = kept; away = opened }) in
    let a = h.away in visit-cooling later c (after_moves start ms) (h.same ∙ sym e) (omega arith)
