-- ===== src/Ingress/Holders.antt =====
-- Which calls are inside, and how many at most (internal/audit/ingress.go).
use deepseek_moderation_api.Prelude.{
  ℕ, ◌+◌, ◌≤◌, ◌<◌, ◌≡◌, refl, ap, sym, ◌∙◌, Bool, true, false, not, ◌&&◌, ◌||◌, List, [], ◌∷◌,
  Option, none, some, String, str_eq, eq_iff, arith, any, leb, if◌then◌else◌, length, Bool-cases,
  inl, inr, Result, ok, err,
}
use mathlib.Core.Path.{subst}
use deepseek_moderation_api.Clock.{before}
use deepseek_moderation_api.Ingress.{
  Float64, IngressLimits, IngressBucket, IngressGuard, new_bucket, refill, find_client, put_client,
  is_full, is_new, make_room, bucket_of, refilled, charge, admit, acquire, release, evict,
}
use deepseek_moderation_api.Ingress.Clients.{
  IsDistinct, active_of, calls_of, find_client-put_client, find_client-put_other, length-put_client,
  put_client-IsDistinct, evict-IsDistinct, length-evict, calls_of-evict,
}

-- A request of an address arrives, or the call of an address is released.
pub data Event : Type 0 where
  request : String → ℕ → Event
  finished : String → Event

-- The guard, with the addresses of the calls that it let in and that were not released.
pub record World : Type 0 where
  pub guard : IngressGuard
  pub holders : List String

unfoldable pub count_of : String → List String → ℕ
count_of ip [] = 0
count_of ip (h ∷ hs) = (if str_eq h ip then 1 else 0) + count_of ip hs

unfoldable pub drop_one : String → List String → List String
drop_one ip [] = []
drop_one ip (h ∷ hs) = let rest = drop_one ip hs in if str_eq h ip then hs else h ∷ rest

abbrev pub with_answer : String → List String → IngressGuard × Result (Unit {0}) → World
with_answer ip hs (g, ok u) = record { guard = g; holders = ip ∷ hs }
with_answer ip hs (g, err e) = record { guard = g; holders = hs }

-- Only a call that is inside is released, and it is released once.
abbrev pub pass : Float64 → World → Event → World
pass float w (request ip now) = with_answer ip w.holders (acquire float w.guard ip now)
pass float w (finished ip) =
    if any (λ h. str_eq h ip) w.holders
    then record { guard = release w.guard ip; holders = drop_one ip w.holders }
    else w

abbrev pub pass_all : Float64 → World → List Event → World
pass_all float w [] = w
pass_all float w (e ∷ es) = pass_all float (pass float w e) es

-- The guard that a server starts with.
abbrev pub empty_guard : IngressLimits → World
empty_guard limits = record {
  guard = record {
    limits = limits;
    global = new_bucket;
    clients = [];
    rejected = 0;
    last_reported = 0;
    next_cleanup = 0;
  };
  holders = [];
}

pub record IsGuarded (limits : IngressLimits) (w : World) : Type 0 where
  pub limits_kept : w.guard.limits ≡ limits
  pub counted : w.guard.global.active ≡ length w.holders
  pub within : length w.holders ≤ limits.concurrency
  pub distinct : IsDistinct w.guard.clients
  pub counted_by : (ip : String) → calls_of ip w.guard.clients ≡ count_of ip w.holders
  pub within_by : (ip : String) → count_of ip w.holders ≤ limits.ip_concurrency
  pub bounded : length w.guard.clients ≤ limits.max_clients

refill-active :
    (float : Float64) (b : IngressBucket) (rpm now : ℕ) → (refill float b rpm now).active ≡ b.active
unfolding refill
refill-active float b rpm now = ground arith

-- One address's bucket is put back with as many calls.
pub put_client-calls_of :
    (ip j : String) (b : IngressBucket) (cs : List (String × IngressBucket)) (n : ℕ)
    → b.active ≡ n + calls_of ip cs
    → calls_of j (put_client ip b cs) ≡ (if str_eq ip j then n else 0) + calls_of j cs
put_client-calls_of ip j b cs n e = elim (Bool-cases (str_eq ip j)) [
  | inl same ↦ rw same (
      subst (λ x. calls_of x (put_client ip b cs) ≡ n + calls_of x cs) ((eq_iff ip j).0 same)
        (ap active_of (find_client-put_client ip b cs) ∙ e))
  | inr other ↦
      rw other (let kept = ap active_of (find_client-put_other ip j b cs other) in omega arith)
]

make_room-IsGuarded :
    (limits : IngressLimits) (g : IngressGuard) (hs : List String) (n : Bool) (now : ℕ)
    → IsGuarded limits (record { guard = g; holders = hs })
    → IsGuarded limits (record { guard = make_room g n now; holders = hs })
unfolding make_room
make_room-IsGuarded limits g hs n now h =
    elim (Bool-cases (n && is_full g && not (before now g.next_cleanup))) [
      | inr full ↦ rw full h
      | inl clean ↦ rw clean (record {
        limits_kept = h.limits_kept;
        counted = h.counted;
        within = h.within;
        distinct = evict-IsDistinct now g.clients h.distinct;
        counted_by = λ ip. calls_of-evict ip now g.clients h.distinct ∙ h.counted_by ip;
        within_by = h.within_by;
        bounded = let l = length-evict now g.clients in let b = h.bounded in omega arith;
      })
    ]

absent-evict :
    (ip : String) (now : ℕ) (cs : List (String × IngressBucket))
    → find_client ip cs ≡ none
    → find_client ip (evict now cs) ≡ none
unfolding evict find_client
absent-evict ip now [] e = refl
absent-evict ip now (c ∷ cs) e = ground (arith, absent-evict ip now cs)

new_eq-none : (b : Option IngressBucket) → is_new b ≡ true → b ≡ none
new_eq-none none e = refl
new_eq-none (some b) e = cc

-- Only a new address makes room, and it stays new.
found-make_room :
    (g : IngressGuard) (ip : String) (now : ℕ)
    → find_client ip (make_room g (is_new (find_client ip g.clients)) now).clients
      ≡ find_client ip g.clients
unfolding make_room
found-make_room g ip now =
    let n = is_new (find_client ip g.clients) in
    elim (Bool-cases (n && is_full g && not (before now g.next_cleanup))) [
      | inr same ↦ rw same refl
      | inl clean ↦
          let e = new_eq-none (find_client ip g.clients) (ground arith) in
          rw clean (absent-evict ip now g.clients e ∙ sym e)
    ]

refilled-IsGuarded :
    (float : Float64) (limits : IngressLimits) (g : IngressGuard) (hs : List String) (ip : String)
    (known : Option IngressBucket) (now : ℕ)
    → find_client ip g.clients ≡ known
    → IsGuarded limits (record { guard = g; holders = hs })
    → IsGuarded limits (record { guard = refilled float g ip known now; holders = hs })
refilled-IsGuarded float limits g hs ip none now e h = record {
  limits_kept = h.limits_kept;
  counted = refill-active float g.global g.limits.global_rpm now ∙ h.counted;
  within = h.within;
  distinct = h.distinct;
  counted_by = h.counted_by;
  within_by = h.within_by;
  bounded = h.bounded;
}
refilled-IsGuarded float limits g hs ip (some b) now e h =
    let b' = refill float b g.limits.ip_rpm now in
    let same : b'.active ≡ 0 + calls_of ip g.clients =
      let k = refill-active float b g.limits.ip_rpm now in
      let c : calls_of ip g.clients ≡ b.active = ap active_of e in omega arith in
    record {
      limits_kept = h.limits_kept;
      counted = refill-active float g.global g.limits.global_rpm now ∙ h.counted;
      within = h.within;
      distinct = put_client-IsDistinct ip b' g.clients h.distinct;
      counted_by = λ j.
          let p = put_client-calls_of ip j b' g.clients 0 same in
          let c = h.counted_by j in ground arith;
      within_by = h.within_by;
      bounded =
          let l = length-put_client ip b' g.clients in
          let m = h.bounded in
          let old : is_new (find_client ip g.clients) ≡ false = ap is_new e in ground arith;
    }

-- A call that comes in.
enter-IsGuarded :
    (float : Float64) (limits : IngressLimits) (g : IngressGuard) (hs : List String) (ip : String)
    (b : IngressBucket)
    → b.active ≡ calls_of ip g.clients
    → b.active < limits.ip_concurrency
    → g.global.active < limits.concurrency
    → length g.clients + (if is_new (find_client ip g.clients) then 1 else 0) ≤ limits.max_clients
    → IsGuarded limits (record { guard = g; holders = hs })
    → IsGuarded limits (record {
      guard = record g {
        global = charge float g.global;
        clients = put_client ip (charge float b) g.clients;
      };
      holders = ip ∷ hs;
    })
unfolding count_of
enter-IsGuarded float limits g hs ip b e l m room h =
    let up : b.active + 1 ≡ 1 + calls_of ip g.clients = omega arith in
    let here = h.counted_by ip in
    record {
      limits_kept = h.limits_kept;
      counted = let c = h.counted in omega arith;
      within = let c = h.counted in omega arith;
      distinct = put_client-IsDistinct ip (charge float b) g.clients h.distinct;
      counted_by = λ j.
          let p = put_client-calls_of ip j (charge float b) g.clients 1 up in
          let c = h.counted_by j in omega arith;
      within_by = λ j. elim (Bool-cases (str_eq ip j)) [
        | inl same ↦ rw same (
            let n : count_of j hs < limits.ip_concurrency =
              subst (λ x. count_of x hs < limits.ip_concurrency) ((eq_iff ip j).0 same)
                (omega arith) in
            omega arith)
        | inr other ↦ rw other (let w = h.within_by j in omega arith)
      ];
      bounded = let n = length-put_client ip (charge float b) g.clients in omega arith;
    }

refilled-room :
    (float : Float64) (g : IngressGuard) (ip : String) (known : Option IngressBucket) (now m : ℕ)
    → find_client ip g.clients ≡ known
    → length g.clients ≤ m
    → (is_new known && leb m (length g.clients)) ≡ false
    → length (refilled float g ip known now).clients
        + (if is_new (find_client ip (refilled float g ip known now).clients) then 1 else 0)
      ≤ m
refilled-room float g ip none now m e l f = rw e (ground arith)
refilled-room float g ip (some b) now m e l f =
    let b' = refill float b g.limits.ip_rpm now in
    let n = length-put_client ip b' g.clients in
    let old : is_new (find_client ip g.clients) ≡ false = ap is_new e in
    rw (find_client-put_client ip b' g.clients) (ground arith)

-- The bucket that the call is counted in.
refilled-calls_of :
    (float : Float64) (g : IngressGuard) (ip : String) (known : Option IngressBucket) (now : ℕ)
    → find_client ip g.clients ≡ known
    → (refill float (bucket_of known) g.limits.ip_rpm now).active
      ≡ calls_of ip (refilled float g ip known now).clients
refilled-calls_of float g ip none now e =
    refill-active float new_bucket g.limits.ip_rpm now ∙ sym (ap active_of e)
refilled-calls_of float g ip (some b) now e =
    sym (ap active_of (find_client-put_client ip (refill float b g.limits.ip_rpm now) g.clients))

admit-IsGuarded :
    (float : Float64) (limits : IngressLimits) (g : IngressGuard) (hs : List String) (ip : String)
    (known : Option IngressBucket) (now : ℕ)
    → find_client ip g.clients ≡ known
    → (is_new known && is_full g) ≡ false
    → IsGuarded limits (record { guard = g; holders = hs })
    → IsGuarded limits (with_answer ip hs (admit float g ip known now))
unfolding admit
admit-IsGuarded float limits g hs ip known now e room h =
    let b = refill float (bucket_of known) g.limits.ip_rpm now in
    let r = refilled float g ip known now in
    let kept = refilled-IsGuarded float limits g hs ip known now e h in
    let same = h.limits_kept in
    elim (Bool-cases (float.below_one b.tokens || float.below_one r.global.tokens)) [
      | inl poor ↦ rw poor kept
      | inr rich ↦
          elim (Bool-cases
            (leb g.limits.ip_concurrency b.active || leb g.limits.concurrency r.global.active)) [
              | inl busy ↦ rw (rich, busy) kept
              | inr free ↦
                  rw (rich, free)
                    (enter-IsGuarded float limits r hs ip b
                      (refilled-calls_of float g ip known now e)
                      (subst (λ l. b.active < l.ip_concurrency) same (ground arith))
                      (subst (λ l. r.global.active < l.concurrency) same (ground arith))
                      (refilled-room float g ip known now limits.max_clients e h.bounded (
                        subst (λ l. (is_new known && leb l.max_clients (length g.clients)) ≡ false)
                          same room))
                      kept)
            ]
    ]

pub acquire-IsGuarded :
    (float : Float64) (limits : IngressLimits) (g : IngressGuard) (hs : List String) (ip : String)
    (now : ℕ)
    → IsGuarded limits (record { guard = g; holders = hs })
    → IsGuarded limits (with_answer ip hs (acquire float g ip now))
unfolding acquire
acquire-IsGuarded float limits g hs ip now h =
    let known = find_client ip g.clients in
    let roomy = make_room g (is_new known) now in
    let h' = make_room-IsGuarded limits g hs (is_new known) now h in
    elim (Bool-cases (is_new known && is_full roomy)) [
      | inl full ↦ rw full h'
      | inr room ↦
          rw room
            (admit-IsGuarded float limits roomy hs ip known now (found-make_room g ip now) room h')
    ]
