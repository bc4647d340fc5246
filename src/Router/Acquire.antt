-- ===== src/Router/Acquire.antt =====
-- Selection of a channel and reservation of its capacity: `acquireRoute` of
-- internal/audit/router.go.
use deepseek_moderation_api.Prelude.{
  ℕ, suc, ◌+◌, ◌-◌, ◌*◌, Bool, true, false, ◌&&◌, ◌||◌, not, List, [], ◌∷◌, Option, none, some, ltb,
  leb, ◌==◌, if◌then◌else◌, length, max, any, map, String, str_eq, Result, ok, err, problem,
}
use deepseek_moderation_api.Clock.{is_zero, after}
use deepseek_moderation_api.Router.State.{
  RouteCandidate, ChannelState, Routes, update, trim_calls, rpm_used, adopt,
}
use deepseek_moderation_api.Router.Tier.{
  PolicySettings, Entry, RouteProgress, Selection, lowest_open, at_level, select_tier,
}

-- What a candidate's round in the scan comes to.
pub data Verdict : Type 0 where
  skip : Verdict
  blocked_by_rpm : Verdict
  eligible : ℕ → Verdict

abbrev pub is_cooling : Bool → ChannelState → ℕ → Bool
is_cooling single st now = not single && (after st.until now || st.probe)

-- The tests of a round, on the state as the earlier statements of the round leave it.
unfoldable pub judge : Bool → ℕ → RouteCandidate → ChannelState → Verdict
judge single now c st =
    if c.channel.rpm == 0
    then eligible 0
    else if leb c.channel.rpm (rpm_used st)
    then blocked_by_rpm
    else eligible (c.channel.rpm - rpm_used st)

-- The state after a candidate's round: an old revision is not looked at, a channel that is cooling
-- or full keeps its expired calls.
unfoldable pub visit : Bool → ℕ → RouteCandidate → ChannelState → ChannelState × Verdict
visit single now c st =
    let fresh = adopt c st in
    let trimmed = trim_calls now fresh in
    if ltb c.channel.revision st.revision
    then (st, skip)
    else if is_cooling single fresh now || leb c.channel.max_concurrency fresh.in_flight
    then (fresh, skip)
    else (trimmed, judge single now c trimmed)

abbrev pub is_used : List String → String → Bool
is_used used id = any (str_eq id) used

pub record Scan : Type 0 where
  pub routes : Routes
  pub rpm_blocked : Bool
  pub entries : List Entry

abbrev pub blocked_or : Verdict → Bool → Bool
blocked_or blocked_by_rpm b = true
blocked_or _ b = b

abbrev pub add_entry : RouteCandidate → Verdict → List Entry → List Entry
add_entry c (eligible r) es = record { candidate = c; remaining = r } ∷ es
add_entry c _ es = es

-- The loop over the candidates, in their order.
unfoldable pub scan : Bool → List String → ℕ → List RouteCandidate → Routes → Scan
scan single used now [] routes = record { routes = routes; rpm_blocked = false; entries = [] }
scan single used now (c ∷ cs) routes =
    let (st, v) = visit single now c (routes c.channel.id) in
    let seen = scan single used now cs (update routes c.channel.id st) in
    let unseen = scan single used now cs routes in
    if is_used used c.channel.id then unseen else record {
      routes = seen.routes;
      rpm_blocked = blocked_or v seen.rpm_blocked;
      entries = add_entry c v seen.entries;
    }

-- The largest remaining allowance of the tier, at least 1: what an unlimited channel counts with.
unfoldable pub unlimited_weight : List Entry → ℕ
unlimited_weight [] = 1
unlimited_weight (e ∷ es) = max e.remaining (unlimited_weight es)

abbrev pub lift_unlimited : ℕ → Entry → Entry
lift_unlimited w e = if e.candidate.channel.rpm == 0 then record e { remaining = w } else e

abbrev pub share : Entry → ℕ
share e = e.candidate.binding.weight * e.remaining

unfoldable pub total_weight : List Entry → ℕ
total_weight [] = 0
total_weight (e ∷ es) = share e + total_weight es

-- The loop that takes the shares off the drawn number; `first` is chosen where none makes it
-- negative.
unfoldable pub choose : Entry → List Entry → ℕ → Entry
choose first [] pick = first
choose first (e ∷ es) pick =
    let rest = choose first es (pick - share e) in if ltb pick (share e) then e else rest

-- What the returned function remembers of the call that made it.
pub record Ticket : Type 0 where
  pub candidate : RouteCandidate
  pub attempt_at : ℕ
  pub failover_deadline : ℕ
  pub single : Bool
  pub is_probe : Bool

-- The reservation on the chosen channel.
unfoldable pub reserve_channel : Bool → ChannelState → ChannelState
reserve_channel single st = record st {
  in_flight = st.in_flight + 1;
  rpm_pending = st.rpm_pending + 1;
  probe = if not single && not (is_zero st.until) then true else st.probe;
}

pub record Acquired : Type 0 where
  pub routes : Routes
  pub progress : Option RouteProgress
  pub outcome : Result (Option Ticket)

abbrev pub no_channel : Bool → Result (Option Ticket)
no_channel true = err (problem 503 "channel_rpm_exceeded")
no_channel false = ok none

unfoldable pub pick_channel :
    Bool
    → ℕ
    → (ℕ → ℕ)
    → (failover_deadline : ℕ) → Bool
    → Routes
    → Option RouteProgress
    → List Entry
    → Acquired
pick_channel single now draw failover_deadline rpm_blocked routes progress [] = record {
  routes = routes;
  progress = progress;
  outcome = no_channel rpm_blocked;
}
pick_channel single now draw failover_deadline rpm_blocked routes progress (e ∷ es) =
    let tier = map (lift_unlimited (unlimited_weight (e ∷ es))) (e ∷ es) in
    let chosen =
      choose (lift_unlimited (unlimited_weight (e ∷ es)) e) tier (draw (total_weight tier)) in
    let st = routes chosen.candidate.channel.id in
    record {
      routes = update routes chosen.candidate.channel.id (reserve_channel single st);
      progress = progress;
      outcome = ok (
          some (record {
            candidate = chosen.candidate;
            attempt_at = now;
            failover_deadline = failover_deadline;
            single = single;
            is_probe = not single && not (is_zero st.until);
          }));
    }

abbrev pub no_skips : ℕ → Bool
no_skips _ = false

abbrev pub after_selection :
    RouteProgress → Option Selection → Option RouteProgress × List Entry × ℕ
after_selection p none = (some p, [], 0)
after_selection p (some s) = (some s.progress, s.tier, s.call_deadline)

-- The tier without a progress is the lowest priority; with one `select_tier` chooses, with fuel for
-- a round on each entry and one more.
unfoldable pub choose_tier :
    Option RouteProgress → List Entry → PolicySettings → ℕ → Option RouteProgress × List Entry × ℕ
choose_tier none es settings now = (none, at_level no_skips (lowest_open no_skips es) es, 0)
choose_tier (some p) es settings now =
    after_selection p (select_tier (suc (length es)) p es settings now)

-- `slots` and `slot_capacity` are the length and the capacity of the channel `Engine.slots`.
unfoldable pub acquire_route :
    (slots slot_capacity : ℕ)
    → Routes
    → List RouteCandidate
    → PolicySettings
    → List String
    → (now : ℕ) → (ℕ → ℕ)
    → Option RouteProgress
    → Acquired
acquire_route slots slot_capacity routes candidates settings used now draw progress =
    let single = length candidates == 1 in
    let s = scan single used now candidates routes in
    let (progress', tier, failover_deadline) = choose_tier progress s.entries settings now in
    if leb slot_capacity slots
    then record {
      routes = routes;
      progress = progress;
      outcome = err (problem 503 "capacity_exceeded");
    }
    else pick_channel single now draw failover_deadline s.rpm_blocked s.routes progress' tier
