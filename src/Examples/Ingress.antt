-- ===== src/Examples/Ingress.antt =====
-- A guard that admits one request a minute: internal/audit/ingress.go.
use deepseek_moderation_api.Prelude.{
  ℕ, ◌%◌, ◌+◌, ◌-◌, ◌*◌, ◌≤◌, ◌≡◌, refl, List, [], ◌∷◌, arith, length, min, ltb,
}
use deepseek_moderation_api.Clock.{second, minute}
use deepseek_moderation_api.Ingress.{
  two64, Float64, IngressGuard, acquire, admit, make_room, find_client, put_client, refill, evict,
  release, record_rejection,
}
use deepseek_moderation_api.Ingress.Holders.{
  Event, request, finished, pass_all, empty_guard, drop_one, IsGuarded,
}
use deepseek_moderation_api.Ingress.Admitted.{pass_all-IsGuarded}
use deepseek_moderation_api.Ingress.Reports.{reject_all, reject_all-le}

-- Tokens in units that a rate of one a minute gains in a nanosecond.
abbrev token : ℕ
token = 60_000_000_000

abbrev float : Float64
float = record {
  of_rpm = λ rpm. rpm * token;
  gain = λ rpm tokens elapsed. min (rpm * token) (tokens + elapsed * rpm);
  below_one = λ tokens. ltb tokens token;
  minus_one = λ tokens. tokens - token;
}

abbrev guard : IngressGuard
guard = record {
  limits = record {
    global_rpm = 1;
    ip_rpm = 1;
    concurrency = 4;
    ip_concurrency = 2;
    max_clients = 8;
  };
  global = record { tokens = 0; updated = 1_000; active = 0 };
  clients = [];
  rejected = 0;
  last_reported = 7_000;
  next_cleanup = 0;
}

-- The second request comes too early; the third waits for a minute.
abbrev events : List Event
events =
    request "198.51.100.1" 2_000
    ∷ request "198.51.100.2" 3_000
    ∷ finished "198.51.100.1"
    ∷ request "198.51.100.2" (minute + 2_000)
    ∷ []

one_inside : (pass_all float (empty_guard guard.limits) events).holders ≡ "198.51.100.2" ∷ []
unfolding acquire admit make_room find_client put_client refill evict release drop_one
one_inside = refl

pass_all-IsGuarded_example :
    IsGuarded guard.limits (pass_all float (empty_guard guard.limits) events)
pass_all-IsGuarded_example = pass_all-IsGuarded float guard.limits events

-- The second line comes half a minute after the first.
abbrev times : List ℕ
times = 31 * second ∷ 32 * second ∷ 61 * second ∷ []

two_lines : (reject_all guard times).1 ≡ 2
unfolding record_rejection
two_lines = refl

reject_all-le_example :
    ((reject_all guard times).0.rejected % two64 ≡ (guard.rejected + length times) % two64)
    × ((reject_all guard times).1 * (30 * second) + guard.last_reported
        ≤ (reject_all guard times).0.last_reported)
reject_all-le_example = reject_all-le guard times (omega arith)
