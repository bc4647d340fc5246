-- ===== src/Router/Ledger.antt =====
-- Every reservation is given back exactly once: the counters of a channel under any sequence of
-- acquisitions, ends of calls and resets (internal/audit/router.go).
use deepseek_moderation_api.Router.Load.{
  outcome_load, HasLoad, update-HasLoad, acquire_route-HasLoad, release-HasLoad,
}
use mathlib.Core.Path.{subst}
use deepseek_moderation_api.Prelude.{
  ℕ, ◌+◌, ◌≡◌, refl, Bool, List, [], ◌∷◌, ◌++◌, Option, none, some, arith, if◌then◌else◌, String,
  str_eq, Result, ok, err,
}
use deepseek_moderation_api.Router.State.{
  RouteCandidate, Routes, fresh_state, update, trim_calls, forget, reset_channel,
}
use deepseek_moderation_api.Router.Tier.{PolicySettings, RouteProgress}
use deepseek_moderation_api.Router.Acquire.{Ticket, acquire_route, Acquired}
use deepseek_moderation_api.Router.Release.{CallError, release}

-- The calls under way, with the states of the channels.
pub record World : Type 0 where
  pub routes : Routes
  pub calls : List Ticket

abbrev pub fresh_world : World
fresh_world = record { routes = λ _. fresh_state; calls = [] }

-- The calls under way that hold the channel `id`.
abbrev pub calls_on : String → List Ticket → ℕ
calls_on id [] = 0
calls_on id (t ∷ ts) = (if str_eq t.candidate.channel.id id then 1 else 0) + calls_on id ts

abbrev pub with_ticket : Result (Option Ticket) → List Ticket → List Ticket
with_ticket (ok (some t)) ts = t ∷ ts
with_ticket (ok none) ts = ts
with_ticket (err e) ts = ts

abbrev pub after_acquire : World → Acquired → World
after_acquire w r = record { routes = r.routes; calls = with_ticket r.outcome w.calls }

-- One critical section under the engine's lock. The function that `acquireRoute` returns runs once
-- (sync.Once), so a call that ends leaves the list.
pub data Step : World → World → Type 0 where
  acquire :
      (w : World) (slots capacity : ℕ) (cs : List RouteCandidate) (settings : PolicySettings)
      (used : List String) (now : ℕ) (draw : ℕ → ℕ) (progress : Option RouteProgress)
      → Step w (
          after_acquire w
            (acquire_route slots capacity w.routes cs settings used now draw progress))
  finish :
      (routes : Routes) (xs : List Ticket) (t : Ticket) (ys : List Ticket)
      (settings : PolicySettings) (now : ℕ) (e : CallError) (sent : Bool)
      → Step
          (record { routes = routes; calls = xs ++ t ∷ ys })
          (record { routes = release settings t now e sent routes; calls = xs ++ ys })
  reset :
      (w : World) (id : String)
      → Step w (record w { routes = update w.routes id (reset_channel (w.routes id)) })
  health :
      (w : World) (id : String) (now : ℕ)
      → Step w (record w { routes = update w.routes id (trim_calls now (w.routes id)) })

pub data Reachable : World → Type 0 where
  start : Reachable fresh_world
  next : {w w' : World} → Reachable w → Step w w' → Reachable w'

abbrev pub IsBalanced : World → Type 0
IsBalanced w = (id : String) → HasLoad (calls_on id w.calls) (w.routes id)

calls_on-with_ticket :
    (id : String) (o : Result (Option Ticket)) (ts : List Ticket)
    → outcome_load id o + calls_on id ts ≡ calls_on id (with_ticket o ts)
calls_on-with_ticket id (ok (some t)) ts = refl
calls_on-with_ticket id (ok none) ts = omega arith
calls_on-with_ticket id (err e) ts = omega arith

acquire_route-IsBalanced :
    (w : World) (slots capacity : ℕ) (cs : List RouteCandidate) (settings : PolicySettings)
    (used : List String) (now : ℕ) (draw : ℕ → ℕ) (progress : Option RouteProgress)
    → IsBalanced w
    → IsBalanced
        (after_acquire w (acquire_route slots capacity w.routes cs settings used now draw progress))
acquire_route-IsBalanced w slots capacity cs settings used now draw progress b id =
    let r = acquire_route slots capacity w.routes cs settings used now draw progress in
    subst (λ k. HasLoad k (r.routes id)) (calls_on-with_ticket id r.outcome w.calls)
      (acquire_route-HasLoad slots capacity w.routes cs settings used now draw progress id _ (b id))

calls_on-append :
    (id : String) (xs ys : List Ticket) → calls_on id (xs ++ ys) ≡ calls_on id xs + calls_on id ys
calls_on-append id [] ys = omega arith
calls_on-append id (x ∷ xs) ys = omega (arith, calls_on-append id xs ys)

-- The load without the call `t`, which counts on its own channel only.
calls_on-remove :
    (id : String) (xs : List Ticket) (t : Ticket) (ys : List Ticket)
    → calls_on id (xs ++ t ∷ ys)
      ≡ (if str_eq t.candidate.channel.id id then 1 else 0) + calls_on id (xs ++ ys)
calls_on-remove id xs t ys = omega (arith, calls_on-append id xs (t ∷ ys), calls_on-append id xs ys)

release-IsBalanced :
    (routes : Routes) (xs : List Ticket) (t : Ticket) (ys : List Ticket) (settings : PolicySettings)
    (now : ℕ) (e : CallError) (sent : Bool)
    → IsBalanced (record { routes = routes; calls = xs ++ t ∷ ys })
    → IsBalanced (record { routes = release settings t now e sent routes; calls = xs ++ ys })
release-IsBalanced routes xs t ys settings now e sent b id =
    release-HasLoad settings t now e sent routes id (calls_on id (xs ++ ys))
      (subst (λ k. HasLoad k (routes id)) (calls_on-remove id xs t ys) (b id))

Step-IsBalanced : (w w' : World) → Step w w' → IsBalanced w → IsBalanced w'
Step-IsBalanced _ _ (acquire w slots capacity cs settings used now draw progress) b =
    acquire_route-IsBalanced w slots capacity cs settings used now draw progress b
Step-IsBalanced _ _ (finish routes xs t ys settings now e sent) b =
    release-IsBalanced routes xs t ys settings now e sent b
Step-IsBalanced _ _ (reset w id) b =
    λ j. update-HasLoad w.routes id j _ _ (λ h. unfold reset_channel forget in h) (b j)
Step-IsBalanced _ _ (health w id now) b =
    λ j. update-HasLoad w.routes id j _ _ (λ h. unfold trim_calls in h) (b j)

Reachable-IsBalanced : (w : World) → Reachable w → IsBalanced w
Reachable-IsBalanced w start = λ id. (refl, refl)
Reachable-IsBalanced w (next {w = w'} r s) = Step-IsBalanced w' w s (Reachable-IsBalanced w' r)

-- After any sequence of acquisitions, ends of calls, resets and health reports, each channel's
-- `in_flight` and `rpm_pending` are the number of the calls under way that hold it: no outcome and
-- no change of configuration leaks a reservation or gives one back twice.
pub in_flight-eq-calls_on :
    (w : World)
    → Reachable w
    → (id : String)
    → ((w.routes id).in_flight ≡ calls_on id w.calls)
      × ((w.routes id).rpm_pending ≡ calls_on id w.calls)
in_flight-eq-calls_on w r id = Reachable-IsBalanced w r id
