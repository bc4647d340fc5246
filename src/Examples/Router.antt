-- ===== src/Examples/Router.antt =====
-- Two channels and a request: internal/audit/router.go, internal/audit/route_failover.go and
-- internal/audit/channel_rpm.go.
use deepseek_moderation_api.Prelude.{
  ℕ, ◌+◌, ◌≤◌, ◌<◌, ◌≡◌, refl, true, false, List, [], ◌∷◌, some, none, arith, length,
}
use deepseek_moderation_api.Clock.{minute}
use deepseek_moderation_api.Router.State.{RouteCandidate, ChannelState, Routes, fresh_state, expire}
use deepseek_moderation_api.Router.Tier.{
  PolicySettings, Entry, RouteProgress, Selection, new_route_progress, select_tier,
  failure_threshold, failure_cooldown,
}
use deepseek_moderation_api.Router.Acquire.{
  Ticket, acquire_route, total_weight, choose, skip, visit,
}
use deepseek_moderation_api.Router.Release.{upstream, release_state}
use deepseek_moderation_api.Router.Weights.{choose-by_share}
use deepseek_moderation_api.Router.Failover.{IsTier, select_tier-total}
use deepseek_moderation_api.Router.Cooldown.{release_state-until_le}
use deepseek_moderation_api.Router.Away.{look, finish, after_moves, failed-visit-skip}
use deepseek_moderation_api.Router.Window.{
  sent, looked, play, count_within, sent_times, expire-count,
}
use deepseek_moderation_api.Router.Ledger.{
  World, fresh_world, after_acquire, acquire, start, next, calls_on, in_flight-eq-calls_on,
}

abbrev pub primary : RouteCandidate
primary = record {
  channel = record { id = "primary"; max_concurrency = 2; rpm = 60; revision = 1 };
  binding = record { priority = 0; weight = 3 };
  signature = "deepseek";
}

abbrev pub backup : RouteCandidate
backup = record {
  channel = record { id = "backup"; max_concurrency = 1; rpm = 0; revision = 1 };
  binding = record { priority = 10; weight = 1 };
  signature = "grok";
}

abbrev pub candidates : List RouteCandidate
candidates = primary ∷ backup ∷ []

abbrev settings : PolicySettings
settings = record {
  max_attempts_per_priority = 2;
  priority_timeout_ms = 4000;
  failure_threshold = 3;
  failure_cooldown_minutes = 30;
}

abbrev idle : Routes
idle _ = fresh_state

abbrev at_noon : ℕ
at_noon = 1_000_000_000_000

abbrev request : RouteProgress
request = record (new_route_progress 0 3) { max_attempts = 3 }

-- What the first call is granted.
abbrev ticket : Ticket
ticket = record {
  candidate = primary;
  attempt_at = at_noon;
  failover_deadline = 0;
  single = false;
  is_probe = false;
}

abbrev draw_zero : ℕ → ℕ
draw_zero _ = 0

abbrev one_call : World
one_call =
    after_acquire fresh_world
      (acquire_route 0 16 idle candidates settings [] at_noon draw_zero none)

in_flight-eq-calls_on_example :
    ((one_call.routes "primary").in_flight ≡ calls_on "primary" one_call.calls)
    × ((one_call.routes "primary").rpm_pending ≡ calls_on "primary" one_call.calls)
in_flight-eq-calls_on_example =
    in_flight-eq-calls_on one_call
      (next start (acquire fresh_world 0 16 candidates settings [] at_noon draw_zero none))
      "primary"

abbrev entries : List Entry
entries =
    record { candidate = primary; remaining = 60 }
    ∷ record { candidate = backup; remaining = 0 }
    ∷ []

select_tier-total_example :
    (s : Selection) × (select_tier 3 request entries settings at_noon ≡ some s)
    × IsTier request entries at_noon s
select_tier-total_example =
    select_tier-total request entries settings at_noon (omega arith, (omega arith, tt))

-- Two failures in a row, and the third call under way.
abbrev failing : ChannelState
failing = record fresh_state {
  signature = "deepseek";
  revision = 1;
  consecutive = 2;
  in_flight = 1;
  rpm_pending = 1;
}

failing-threshold : failure_threshold settings ≡ 3
unfolding failure_threshold
failing-threshold = refl

-- Another call that was under way fails too, and a later request looks at the channel.
failed-visit-skip_example :
    (visit false (at_noon + minute) primary (
      after_moves
        (release_state settings ticket at_noon (upstream "upstream_unavailable" 0) true failing)
        (finish settings ticket (at_noon + 1) (upstream "upstream_timeout" 0) true
          ∷ look false (at_noon + 2) primary
          ∷ []))).1
    ≡ skip
failed-visit-skip_example =
    failed-visit-skip settings ticket at_noon 0 "upstream_unavailable" failing
      (finish settings ticket (at_noon + 1) (upstream "upstream_timeout" 0) true
        ∷ look false (at_noon + 2) primary
        ∷ [])
      primary (at_noon + minute) refl refl (unfold failure_threshold in refl) (refl, (refl, tt))
      refl (unfold failure_cooldown in omega arith)

release_state-until_le_example :
    failing.until
    ≤ (release_state settings ticket at_noon (upstream "upstream_unavailable" 0) true failing).until
release_state-until_le_example =
    release_state-until_le settings ticket at_noon (upstream "upstream_unavailable" 0) true failing
      refl

abbrev tier : Entry
tier = record { candidate = backup; remaining = 60 }

abbrev first : Entry
first = record { candidate = primary; remaining = 60 }

-- The number 200 falls into the share of the second channel: 180 go to the first.
choose-by_share_example :
    (choose first (first ∷ tier ∷ []) (total_weight (first ∷ []) + 20) ≡ tier)
    × (total_weight (first ∷ []) + 20 < total_weight (first ∷ tier ∷ []))
choose-by_share_example = choose-by_share first (first ∷ []) tier [] 20 (omega arith)

expire-count_example :
    length (
      expire (at_noon + minute) (play (sent at_noon ∷ looked at_noon ∷ sent (at_noon + 5) ∷ []) []))
    ≡ count_within
        (at_noon + minute)
        (sent_times (sent at_noon ∷ looked at_noon ∷ sent (at_noon + 5) ∷ []))
expire-count_example =
    expire-count (at_noon + minute) (sent at_noon ∷ looked at_noon ∷ sent (at_noon + 5) ∷ [])
      (omega arith, tt)
