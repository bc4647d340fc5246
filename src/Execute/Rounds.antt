-- ===== src/Execute/Rounds.antt =====
-- A round of the loop of `executeRoute`, and the loop (internal/audit/router.go, lines 654 to 796).
use deepseek_moderation_api.Prelude.{
  ℕ, zero, suc, Bool, true, false, not, List, ◌∷◌, Option, none, some, leb, if◌then◌else◌, str_eq,
  problem, Result, ok, err,
}
use deepseek_moderation_api.Router.State.{RouteCandidate}
use deepseek_moderation_api.Router.Tier.{PolicySettings, RouteProgress}
use deepseek_moderation_api.Router.Acquire.{Ticket, Acquired, acquire_route}
use deepseek_moderation_api.Router.Release.{success, release}
use deepseek_moderation_api.Execute.{
  Query, active, inactive, query_failed, Credential, same_key, other_key, credential_failed, Round,
  Execution, Next, resume, stop, error_code, route_preparation_timeout, reservation_error,
}
use deepseek_moderation_api.Execute.Answer.{infer}

-- `release(…, false)`: what it is told does not matter for a call that was not sent.
unfoldable pub refund : {A : Type 0} → PolicySettings → Round A → Ticket → Execution → Execution
refund settings r t x = record x { routes = release settings t r.done_at success false x.routes }

-- A failed preparation goes on with another channel if it only ran out of the tier's time.
unfoldable pub give_up : {A : Type 0} → Bool → Next A → Execution → Next A
give_up true otherwise x = resume (record x { last_error = route_preparation_timeout })
give_up false otherwise x = otherwise

unfoldable pub check_reservation :
    {A : Type 0} → PolicySettings → Round A → Ticket → Execution → Result (Unit {0}) → Next A
check_reservation settings r t x (err e) =
    stop (refund settings r t x) (err (reservation_error r.preparation_expired e))
check_reservation settings r t x (ok u) = infer settings r t x

unfoldable pub check_credential :
    {A : Type 0} → PolicySettings → Round A → Ticket → Execution → Credential → Next A
check_credential settings r t x same_key = check_reservation settings r t x r.reservation
check_credential settings r t x other_key =
    give_up r.preparation_expired (resume (refund settings r t x)) (refund settings r t x)
check_credential settings r t x (credential_failed e) =
    give_up r.preparation_expired
      (if not (str_eq (error_code e) "credential_unavailable")
        then stop (refund settings r t x) (err e)
        else resume (refund settings r t x))
      (refund settings r t x)

unfoldable pub check_active :
    {A : Type 0} → PolicySettings → Round A → Ticket → Execution → Query → Next A
check_active settings r t x active = check_credential settings r t x r.credential
check_active settings r t x inactive = resume (refund settings r t x)
check_active settings r t x (query_failed e) =
    give_up r.preparation_expired (stop (refund settings r t x) (err e)) (refund settings r t x)

-- A request always has a progress, and `acquire_route` gives it back.
abbrev pub progress_of : RouteProgress → Option RouteProgress → RouteProgress
progress_of p none = p
progress_of p (some q) = q

unfoldable pub with_ticket :
    {A : Type 0} → PolicySettings → Round A → Execution → Result (Option Ticket) → Next A
with_ticket settings r x (err e) = stop x (err e)
with_ticket settings r x (ok none) = stop x (err x.last_error)
with_ticket settings r x (ok (some t)) =
    check_active settings r t (record x { used = t.candidate.channel.id ∷ x.used }) r.query

unfoldable pub acquired :
    {A : Type 0} → List RouteCandidate → PolicySettings → Round A → Execution → Acquired
acquired candidates settings r x =
    acquire_route r.slots r.slot_capacity x.routes candidates settings x.used r.now r.draw
      (some x.progress)

-- The request's own deadline is looked at first.
abbrev pub unless_expired : {A : Type 0} → Bool → Execution → Next A → Next A
unless_expired true x next = stop x (err (problem 504 "audit_timeout"))
unless_expired false x next = next

unfoldable pub start_round :
    {A : Type 0} → List RouteCandidate → PolicySettings → Round A → Execution → Next A
start_round candidates settings r x =
    let a = acquired candidates settings r x in
    unless_expired r.expired x (
      with_ticket settings r
        (record x { routes = a.routes; progress = progress_of x.progress a.progress }) a.outcome)

-- Other requests come first.
unfoldable pub round :
    {A : Type 0} → List RouteCandidate → PolicySettings → Round A → Execution → Next A
round candidates settings r x =
    start_round candidates settings r (record x { routes = r.others x.routes })

abbrev pub follow :
    {A : Type 0}
    → (Execution → Option (Execution × Result A))
    → Next A
    → Option (Execution × Result A)
follow rest (resume x) = rest x
follow rest (stop x result) = some (x, result)

-- `none` is a loop that has not ended within the fuel.
unfoldable pub execute :
    {A : Type 0}
    → (fuel limit : ℕ) → List RouteCandidate
    → PolicySettings
    → (ℕ → Round A)
    → Execution
    → Option (Execution × Result A)
execute zero limit candidates settings rounds x = none
execute (suc fuel) limit candidates settings rounds x =
    let rest =
      follow (λ y. execute fuel limit candidates settings (λ n. rounds (suc n)) y)
        (round candidates settings (rounds 0) x) in
    if leb limit x.attempt_count then some (x, err x.last_error) else rest
