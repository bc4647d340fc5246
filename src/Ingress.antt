-- ===== src/Ingress.antt =====
-- The limits at the entrance: internal/audit/ingress.go. Tokens are a float64, kept as its bits; its
-- arithmetic, with its rounding, is an argument. A call's bucket is found by its address, since a
-- bucket in use is not removed.
pub mod Clients
pub mod Holders
pub mod Admitted
pub mod Reports
use deepseek_moderation_api.Prelude.{
  ℕ, ◌%◌, ◌+◌, ◌-◌, ◌*◌, Bool, true, false, not, ◌&&◌, ◌||◌, List, [], ◌∷◌, Option, none, some, ltb,
  leb, ◌==◌, if◌then◌else◌, length, min, String, str_eq, Result, ok, err, problem,
}
use deepseek_moderation_api.Clock.{second, minute, is_zero, before}

-- What the code does with a float64: float64(rpm); the tokens after some nanoseconds,
-- min(float64(rpm), tokens + elapsed.Seconds() * float64(rpm) / 60); tokens < 1; tokens - 1.
pub record Float64 : Type 0 where
  pub of_rpm : ℕ → ℕ
  pub gain : (rpm tokens elapsed : ℕ) → ℕ
  pub below_one : ℕ → Bool
  pub minus_one : ℕ → ℕ

pub record IngressLimits : Type 0 where
  pub global_rpm : ℕ
  pub ip_rpm : ℕ
  pub concurrency : ℕ
  pub ip_concurrency : ℕ
  pub max_clients : ℕ

pub record IngressBucket : Type 0 where
  pub tokens : ℕ
  pub updated : ℕ
  pub active : ℕ

abbrev pub new_bucket : IngressBucket
new_bucket = record { tokens = 0; updated = 0; active = 0 }

pub record IngressGuard : Type 0 where
  pub limits : IngressLimits
  pub global : IngressBucket
  pub clients : List (String × IngressBucket)
  pub rejected : ℕ
  pub last_reported : ℕ
  pub next_cleanup : ℕ

unfoldable pub refill : Float64 → IngressBucket → (rpm now : ℕ) → IngressBucket
refill float b rpm now =
    if is_zero b.updated
    then record b { tokens = float.of_rpm rpm; updated = now }
    else if ltb b.updated now
    then record b { tokens = float.gain rpm b.tokens (now - b.updated); updated = now }
    else b

unfoldable pub find_client : String → List (String × IngressBucket) → Option IngressBucket
find_client ip [] = none
find_client ip (c ∷ cs) = let rest = find_client ip cs in if str_eq c.0 ip then some c.1 else rest

-- `g.clients[ip] = b`.
unfoldable pub put_client :
    String → IngressBucket → List (String × IngressBucket) → List (String × IngressBucket)
put_client ip b [] = (ip, b) ∷ []
put_client ip b (c ∷ cs) =
    let rest = put_client ip b cs in if str_eq c.0 ip then (ip, b) ∷ cs else c ∷ rest

unfoldable pub evict : ℕ → List (String × IngressBucket) → List (String × IngressBucket)
evict now [] = []
evict now (c ∷ cs) =
    let rest = evict now cs in
    if c.1.active == 0 && leb (c.1.updated + minute) now then rest else c ∷ rest

abbrev pub is_full : IngressGuard → Bool
is_full g = leb g.limits.max_clients (length g.clients)

abbrev pub is_new : Option IngressBucket → Bool
is_new none = true
is_new (some b) = false

-- The cleanup that a new address waits for, once a minute.
unfoldable pub make_room : IngressGuard → (is_new : Bool) → ℕ → IngressGuard
make_room g is_new now =
    if is_new && is_full g && not (before now g.next_cleanup)
    then record g { clients = evict now g.clients; next_cleanup = now + minute }
    else g

abbrev pub bucket_of : Option IngressBucket → IngressBucket
bucket_of none = new_bucket
bucket_of (some b) = b

-- The global bucket, and that of a known address, keep what they gained if the call is refused.
abbrev pub refilled : Float64 → IngressGuard → String → Option IngressBucket → ℕ → IngressGuard
refilled float g ip none now = record g { global = refill float g.global g.limits.global_rpm now }
refilled float g ip (some b) now = record g {
  global = refill float g.global g.limits.global_rpm now;
  clients = put_client ip (refill float b g.limits.ip_rpm now) g.clients;
}

abbrev pub charge : Float64 → IngressBucket → IngressBucket
charge float b = record b { tokens = float.minus_one b.tokens; active = b.active + 1 }

unfoldable pub admit :
    Float64 → IngressGuard → String → Option IngressBucket → ℕ → IngressGuard × Result (Unit {0})
admit float g ip known now =
    let b = refill float (bucket_of known) g.limits.ip_rpm now in
    let r = refilled float g ip known now in
    if float.below_one b.tokens || float.below_one r.global.tokens
    then (r, err (problem 429 "ingress_rate_limited"))
    else if leb g.limits.ip_concurrency b.active || leb g.limits.concurrency r.global.active
    then (r, err (problem 503 "request_capacity_exceeded"))
    else (
      record r {
        global = charge float r.global;
        clients = put_client ip (charge float b) r.clients;
      },
      ok tt,
    )

unfoldable pub acquire : Float64 → IngressGuard → String → ℕ → IngressGuard × Result (Unit {0})
acquire float g ip now =
    let known = find_client ip g.clients in
    let roomy = make_room g (is_new known) now in
    if is_new known && is_full roomy
    then (roomy, err (problem 503 "ingress_capacity_exceeded"))
    else admit float roomy ip known now

abbrev pub done : IngressBucket → IngressBucket
done b = record b { active = b.active - 1 }

abbrev pub release_client : IngressGuard → String → Option IngressBucket → IngressGuard
release_client g ip none = record g { global = done g.global }
release_client g ip (some b) = record g {
  global = done g.global;
  clients = put_client ip (done b) g.clients;
}

unfoldable pub release : IngressGuard → String → IngressGuard
release g ip = release_client g ip (find_client ip g.clients)

-- The range of a uint64.
abbrev pub two64 : ℕ
two64 = 18_446_744_073_709_551_616

-- `recordRejection`; true where it writes a line to the log.
unfoldable pub record_rejection : IngressGuard → ℕ → IngressGuard × Bool
record_rejection g now =
    let counted = record g { rejected = (g.rejected + 1) % two64 } in
    if is_zero g.last_reported || leb (g.last_reported + 30 * second) now
    then (record counted { last_reported = now }, true)
    else (counted, false)
