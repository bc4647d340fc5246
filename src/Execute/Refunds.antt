-- ===== src/Execute/Refunds.antt =====
-- A request gives back every reservation that it makes (internal/audit/router.go, `executeRoute`).
use deepseek_moderation_api.Execute.Steps.{
  NextOf, check_active-NextOf, unless_expired-NextOf, follow-NextOf,
}
use mathlib.Core.Path.{subst}
use deepseek_moderation_api.Prelude.{
  ℕ, zero, suc, ◌+◌, ◌≡◌, false, List, ◌∷◌, Option, none, some, arith, leb, inl, inr, Bool-cases,
  String, Result, ok, err,
}
use deepseek_moderation_api.Router.State.{RouteCandidate, Routes}
use deepseek_moderation_api.Router.Tier.{PolicySettings}
use deepseek_moderation_api.Router.Acquire.{Ticket}
use deepseek_moderation_api.Router.Release.{success}
use deepseek_moderation_api.Router.Load.{
  on_channel, outcome_load, HasLoad, acquire_route-HasLoad, release-HasLoad,
}
use deepseek_moderation_api.Execute.{Round, Execution, released_error}
use deepseek_moderation_api.Execute.Answer.{after_call}
use deepseek_moderation_api.Execute.Rounds.{
  refund, with_ticket, acquired, start_round, round, execute,
}

abbrev HoldsOn : String → ℕ → Execution → Type 0
HoldsOn id k x = HasLoad k (x.routes id)

module _ {A : Type 0} (settings : PolicySettings) (id : String) (n : ℕ) where
  refund-Holds :
      (r : Round A) (t : Ticket) (x : Execution)
      → HoldsOn id (on_channel t id + n) x
      → HoldsOn id n (refund settings r t x)
  unfolding refund
  refund-Holds r t x h = release-HasLoad settings t r.done_at success false x.routes id n h

  after_call-Holds :
      (r : Round A) (t : Ticket) (x : Execution)
      → HoldsOn id (on_channel t id + n) x
      → HoldsOn id n (after_call settings r t x)
  unfolding after_call
  after_call-Holds r t x h =
      release-HasLoad settings (record t { attempt_at = r.attempt_at }) r.done_at (released_error r)
        r.usage.attempted x.routes id n h

  with_ticket-Holds :
      (r : Round A) (x : Execution) (o : Result (Option Ticket))
      → HoldsOn id (outcome_load id o + n) x
      → NextOf (HoldsOn id n) (with_ticket settings r x o)
  unfolding with_ticket
  with_ticket-Holds r x (err e) h = (omega (arith, h.0), omega (arith, h.1))
  with_ticket-Holds r x (ok none) h = (omega (arith, h.0), omega (arith, h.1))
  with_ticket-Holds r x (ok (some t)) h =
      let x' = record x { used = t.candidate.channel.id ∷ x.used } in
      check_active-NextOf settings (HoldsOn id n) (λ z e p. p) r t x' (refund-Holds r t x' h)
        (after_call-Holds r t x' h) r.query

  round-Holds :
      (cs : List RouteCandidate) (r : Round A) (x : Execution)
      → HasLoad n (r.others x.routes id)
      → NextOf (HoldsOn id n) (round cs settings r x)
  unfolding round start_round acquired
  round-Holds cs r x h = unless_expired-NextOf (HoldsOn id n) r.expired _ _ h (
      with_ticket-Holds r _ _ (
        acquire_route-HasLoad r.slots r.slot_capacity (r.others x.routes) cs settings x.used r.now
          r.draw (some x.progress) id n h))

-- How many calls of other requests hold each channel, from round to round.
abbrev pub OthersHold : {A : Type 0} → (ℕ → String → ℕ) → (ℕ → Round A) → Type 0
OthersHold loads rounds =
    (k : ℕ) (id : String) (routes : Routes)
    → HasLoad (loads k id) (routes id)
    → HasLoad (loads (suc k) id) ((rounds k).others routes id)

abbrev EndOf : {A : Type 0} → (ℕ → String → ℕ) → String → Option (Execution × Result A) → Type 0
EndOf loads id none = Unit {0}
EndOf loads id (some e) = (k : ℕ) × HasLoad (loads k id) (e.0.routes id)

later :
    {A : Type 0} (loads : ℕ → String → ℕ) (id : String) (o : Option (Execution × Result A))
    → EndOf (λ k. loads (suc k)) id o
    → EndOf loads id o
later loads id none e = tt
later loads id (some x) (k, h) = (suc k, h)

execute-EndOf :
    {A : Type 0} (fuel limit : ℕ) (cs : List RouteCandidate) (settings : PolicySettings)
    (rounds : ℕ → Round A) (loads : ℕ → String → ℕ) (x : Execution) (id : String)
    → OthersHold loads rounds
    → HasLoad (loads 0 id) (x.routes id)
    → EndOf loads id (execute fuel limit cs settings rounds x)
unfolding execute
execute-EndOf zero limit cs settings rounds loads x id o h = tt
execute-EndOf (suc fuel) limit cs settings rounds loads x id o h =
    elim (Bool-cases (leb limit x.attempt_count)) [
      | inl spent ↦ rw spent (0, h)
      | inr left ↦ rw left (
          follow-NextOf (HoldsOn id (loads 1 id)) (EndOf loads id) _
            (λ z p. later loads id _ (
              execute-EndOf fuel limit cs settings (λ n. rounds (suc n)) (λ n. loads (suc n)) z id
                (λ n. o (suc n)) p))
            (λ z result p. (1, p)) (round cs settings (rounds 0) x)
            (round-Holds settings id (loads 1 id) cs (rounds 0) x (o 0 id x.routes h)))
    ]

-- A request that ends, with whatever result and after whatever failures of the database, the vault,
-- the provider or the billing, holds no channel any more: in every channel, `in_flight` and
-- `rpm_pending` count the calls of the other requests only, if they did so at its start and the
-- other requests keep to their own calls between its rounds.
pub execute-refunds :
    {A : Type 0} (fuel limit : ℕ) (cs : List RouteCandidate) (settings : PolicySettings)
    (rounds : ℕ → Round A) (loads : ℕ → String → ℕ) (x y : Execution) (result : Result A)
    (id : String)
    → OthersHold loads rounds
    → HasLoad (loads 0 id) (x.routes id)
    → execute fuel limit cs settings rounds x ≡ some (y, result)
    → (k : ℕ) × HasLoad (loads k id) (y.routes id)
execute-refunds fuel limit cs settings rounds loads x y result id o h e =
    subst (EndOf loads id) e (execute-EndOf fuel limit cs settings rounds loads x id o h)
