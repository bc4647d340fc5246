-- ===== src/Execute/Ends.antt =====
-- The loop of `executeRoute` ends, and what it has counted (internal/audit/router.go).
use deepseek_moderation_api.Prelude.{
  ℕ, zero, suc, ◌+◌, ◌≤◌, ◌<◌, ◌≡◌, refl, false, List, [], ◌∷◌, Option, none, some, arith, leb,
  if◌then◌else◌, inl, inr, Bool-cases, All, All-map, String, str_eq_self, Result, ok, err,
}
use deepseek_moderation_api.Router.State.{RouteCandidate}
use deepseek_moderation_api.Router.Tier.{PolicySettings}
use deepseek_moderation_api.Router.Acquire.{Ticket, is_used}
use deepseek_moderation_api.Router.Members.{acquire_route-All}
use deepseek_moderation_api.Execute.{Round, Execution}
use deepseek_moderation_api.Execute.Answer.{after_call}
use deepseek_moderation_api.Execute.Steps.{
  check_active-NextOf, ResumeOf, NextOf-ResumeOf, unless_expired-ResumeOf, follow-ResumeOf,
}
use deepseek_moderation_api.Execute.Rounds.{
  refund, with_ticket, acquired, start_round, round, execute,
}

-- The candidates that the request has not tried.
abbrev pub unused : List String → List RouteCandidate → ℕ
unused used [] = 0
unused used (c ∷ cs) = (if is_used used c.channel.id then 0 else 1) + unused used cs

unused-le :
    (i : String) (used : List String) (cs : List RouteCandidate)
    → unused (i ∷ used) cs ≤ unused used cs
unused-le i used [] = omega arith
unused-le i used (c ∷ cs) = ground (arith, unused-le i used cs)

Fewer : List String → List RouteCandidate → RouteCandidate → Type 0
Fewer used cs c = unused (c.channel.id ∷ used) cs < unused used cs

-- Trying a candidate leaves fewer.
unused-All :
    (used : List String) (cs : List RouteCandidate)
    → All (λ c. is_used used c.channel.id ≡ false → Fewer used cs c) cs
unfolding Fewer
unused-All used [] = tt
unused-All used (c ∷ cs) = (
  λ new. ground (arith, str_eq_self c.channel.id, unused-le c.channel.id used cs),
  All-map _ _ cs (λ d f new. ground (arith, f new, unused-le d.channel.id used cs))
      (unused-All used cs),
)

module _ {A : Type 0} (settings : PolicySettings) (cs : List RouteCandidate) where
  with_ticket-Fewer :
      (r : Round A) (x y : Execution) (o : Result (Option Ticket))
      → y.used ≡ x.used
      → ((t : Ticket) → o ≡ ok (some t) → Fewer x.used cs t.candidate)
      → ResumeOf (λ z. unused z.used cs < unused x.used cs) (with_ticket settings r y o)
  unfolding with_ticket
  with_ticket-Fewer r x y (err e) same f = tt
  with_ticket-Fewer r x y (ok none) same f = tt
  with_ticket-Fewer r x y (ok (some t)) same f =
      let id = t.candidate.channel.id in
      let fewer : unused (id ∷ y.used) cs < unused x.used cs = unfold Fewer in rw same (f t refl) in
      let P : Execution → Type 0 = λ z. unused z.used cs < unused x.used cs in
      let y' = record y { used = id ∷ y.used } in
      NextOf-ResumeOf P _ (
        check_active-NextOf settings P (λ z e p. p) r t y' (unfold refund in fewer)
          (unfold after_call in fewer) r.query)

  round-Fewer :
      (r : Round A) (x : Execution)
      → ResumeOf (λ z. unused z.used cs < unused x.used cs) (round cs settings r x)
  unfolding round start_round acquired
  round-Fewer r x =
      unless_expired-ResumeOf (λ z. unused z.used cs < unused x.used cs) r.expired _ _
        (with_ticket-Fewer r x _ _ refl (λ t e.
          acquire_route-All (Fewer x.used cs) r.slots r.slot_capacity (r.others x.routes) cs
            settings x.used r.now r.draw (some x.progress) t (unused-All x.used cs) e))

-- The loop ends for every request: a round that goes on has tried one more of the candidates, so
-- there are at most as many rounds as candidates that were not tried, and one more.
pub execute-total :
    {A : Type 0} (fuel limit : ℕ) (cs : List RouteCandidate) (settings : PolicySettings)
    (rounds : ℕ → Round A) (x : Execution)
    → unused x.used cs < fuel
    → (y : Execution) × (result : Result A) × (execute fuel limit cs settings rounds x
        ≡ some (y, result))
unfolding execute
execute-total zero limit cs settings rounds x h = absurd (omega (arith, h))
execute-total {A = A} (suc fuel) limit cs settings rounds x h =
    elim (Bool-cases (leb limit x.attempt_count)) [
      | inl spent ↦ (x, err x.last_error, rw spent refl)
      | inr left ↦ rw left (
          follow-ResumeOf (λ z. unused z.used cs < unused x.used cs)
            (λ o. (y : Execution) × (result : Result A) × (o ≡ some (y, result))) _
            (λ z p.
              execute-total fuel limit cs settings (λ n. rounds (suc n)) z (omega (arith, p, h)))
            (λ z result. (z, result, refl)) (round cs settings (rounds 0) x)
            (round-Fewer settings cs (rounds 0) x))
    ]
