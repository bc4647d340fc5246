-- ===== src/Router/Load.antt =====
-- The load of a channel: the two counters that a reservation raises and the end of a call lowers
-- (internal/audit/router.go).
use mathlib.Core.Path.{subst}
use deepseek_moderation_api.Prelude.{
  ℕ, suc, ◌+◌, ◌≡◌, sym, Bool, true, false, List, [], ◌∷◌, Option, none, some, arith, leb, ◌==◌,
  if◌then◌else◌, inl, inr, Bool-cases, String, str_eq, Result, ok, err, length, map, eq_iff,
}
use deepseek_moderation_api.Router.State.{
  RouteCandidate, ChannelState, Routes, update, trim_calls, adopt, forget,
}
use deepseek_moderation_api.Router.Tier.{PolicySettings, Entry, RouteProgress}
use deepseek_moderation_api.Router.Acquire.{
  visit, is_used, scan, Ticket, reserve_channel, pick_channel, acquire_route, choose,
  lift_unlimited, unlimited_weight, total_weight,
}
use deepseek_moderation_api.Router.Release.{
  CallError, success, cancelled, deadline_exceeded, upstream, account, cool_down, judge_outcome,
  release_state, release,
}

-- How many of the reservations that an outcome holds are on the channel `id`.
abbrev pub on_channel : Ticket → String → ℕ
on_channel t id = if str_eq t.candidate.channel.id id then 1 else 0

abbrev pub outcome_load : String → Result (Option Ticket) → ℕ
outcome_load id (ok (some t)) = on_channel t id
outcome_load id (ok none) = 0
outcome_load id (err e) = 0

-- The two counters that a reservation raises.
abbrev pub HasLoad : ℕ → ChannelState → Type 0
HasLoad n st = (st.in_flight ≡ n) × (st.rpm_pending ≡ n)

visit-HasLoad :
    (single : Bool) (now n : ℕ) (c : RouteCandidate) (st : ChannelState)
    → HasLoad n st
    → HasLoad n (visit single now c st).0
unfolding visit adopt forget trim_calls
visit-HasLoad single now n c st h = ground arith

-- Writing a state of the same load keeps every load.
pub update-HasLoad :
    (routes : Routes) (i j : String) (st : ChannelState) (n : ℕ)
    → (HasLoad n (routes i) → HasLoad n st)
    → HasLoad n (routes j)
    → HasLoad n (update routes i st j)
update-HasLoad routes i j st n f h = elim (Bool-cases (str_eq i j)) [
  | inl same ↦ let e : i ≡ j = (eq_iff i j).0 same in rw same (f (rw e h))
  | inr other ↦ rw other h
]

scan-HasLoad :
    (single : Bool) (used : List String) (now n : ℕ) (cs : List RouteCandidate) (routes : Routes)
    (id : String)
    → HasLoad n (routes id)
    → HasLoad n ((scan single used now cs routes).routes id)
unfolding scan
scan-HasLoad single used now n [] routes id h = h
scan-HasLoad single used now n (c ∷ cs) routes id h =
    elim (Bool-cases (is_used used c.channel.id)) [
      | inl old ↦ rw old (scan-HasLoad single used now n cs routes id h)
      | inr new ↦ rw new (
          scan-HasLoad single used now n cs
            (update routes c.channel.id (visit single now c (routes c.channel.id)).0) id
            (update-HasLoad routes c.channel.id id _ n
              (visit-HasLoad single now n c (routes c.channel.id)) h))
    ]

-- Reserving on the channel `i` raises its load, and no other.
reserve-HasLoad :
    (single : Bool) (routes : Routes) (i id : String) (n : ℕ)
    → HasLoad n (routes id)
    → HasLoad
        ((if str_eq i id then 1 else 0) + n)
        (update routes i (reserve_channel single (routes i)) id)
unfolding reserve_channel
reserve-HasLoad single routes i id n h = elim (Bool-cases (str_eq i id)) [
  | inl same ↦
      let e : i ≡ id = (eq_iff i id).0 same in rw (same, e) (omega (arith, h.0), omega (arith, h.1))
  | inr other ↦ rw other (omega (arith, h.0), omega (arith, h.1))
]

-- Searching the tier raises the load by what its outcome holds.
pick_channel-HasLoad :
    (single : Bool) (now : ℕ) (draw : ℕ → ℕ) (deadline : ℕ) (blocked : Bool) (routes : Routes)
    (progress : Option RouteProgress) (es : List Entry) (id : String) (n : ℕ)
    → HasLoad n (routes id)
    → let r = pick_channel single now draw deadline blocked routes progress es in
      HasLoad (outcome_load id r.outcome + n) (r.routes id)
unfolding pick_channel
pick_channel-HasLoad single now draw deadline true routes progress [] id n h =
    (omega (arith, h.0), omega (arith, h.1))
pick_channel-HasLoad single now draw deadline false routes progress [] id n h =
    (omega (arith, h.0), omega (arith, h.1))
pick_channel-HasLoad single now draw deadline blocked routes progress (x ∷ xs) id n h =
    let w = unlimited_weight (x ∷ xs) in
    let tier = map (lift_unlimited w) (x ∷ xs) in
    let chosen = choose (lift_unlimited w x) tier (draw (total_weight tier)) in
    reserve-HasLoad single routes chosen.candidate.channel.id id n h

pub acquire_route-HasLoad :
    (slots capacity : ℕ) (routes : Routes) (cs : List RouteCandidate) (settings : PolicySettings)
    (used : List String) (now : ℕ) (draw : ℕ → ℕ) (progress : Option RouteProgress) (id : String)
    (n : ℕ)
    → HasLoad n (routes id)
    → let r = acquire_route slots capacity routes cs settings used now draw progress in
      HasLoad (outcome_load id r.outcome + n) (r.routes id)
unfolding acquire_route
acquire_route-HasLoad slots capacity routes cs settings used now draw progress id n h =
    elim (Bool-cases (leb capacity slots)) [
      | inl full ↦ rw full (omega (arith, h.0), omega (arith, h.1))
      | inr room ↦ rw room (
          pick_channel-HasLoad _ now draw _ _ _ _ _ id n
            (scan-HasLoad (length cs == 1) used now n cs routes id h))
    ]

-- The end of a call lowers the load by one, whatever became of the call and its configuration.
release_state-HasLoad :
    (settings : PolicySettings) (t : Ticket) (now : ℕ) (e : CallError) (sent : Bool)
    (st : ChannelState) (n : ℕ)
    → HasLoad (suc n) st
    → HasLoad n (release_state settings t now e sent st)
unfolding release_state account judge_outcome cool_down
release_state-HasLoad settings t now success sent st n h = ground arith
release_state-HasLoad settings t now cancelled sent st n h = ground arith
release_state-HasLoad settings t now deadline_exceeded sent st n h = ground arith
release_state-HasLoad settings t now (upstream code asked) sent st n h = ground arith

pub release-HasLoad :
    (settings : PolicySettings) (t : Ticket) (now : ℕ) (e : CallError) (sent : Bool)
    (routes : Routes) (id : String) (n : ℕ)
    → HasLoad (on_channel t id + n) (routes id)
    → HasLoad n (release settings t now e sent routes id)
unfolding release
release-HasLoad settings t now e sent routes id n h =
    elim (Bool-cases (str_eq t.candidate.channel.id id)) [
      | inl same ↦
          let i : t.candidate.channel.id ≡ id = (eq_iff _ id).0 same in
          let one : on_channel t id + n ≡ suc n = rw same (omega arith) in
          let held = subst (λ k. HasLoad k (routes id)) one h in
          rw same (
            release_state-HasLoad settings t now e sent (routes t.candidate.channel.id) n
              (subst (λ j. HasLoad (suc n) (routes j)) (sym i) held))
      | inr other ↦
          let zero_more : on_channel t id + n ≡ n = rw other (omega arith) in
          rw other (subst (λ k. HasLoad k (routes id)) zero_more h)
    ]
