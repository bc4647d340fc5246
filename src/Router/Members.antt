-- ===== src/Router/Members.antt =====
-- What holds of every candidate that was not used holds of the one that is reserved
-- (internal/audit/router.go).
use mathlib.Core.Path.{subst}
use deepseek_moderation_api.Prelude.{
  ℕ, ◌≡◌, Bool, true, false, List, [], ◌∷◌, Option, none, some, leb, ◌==◌, inl, inr, Bool-cases,
  All, String, Result, ok, err, problem, length,
}
use deepseek_moderation_api.Router.State.{RouteCandidate, Routes}
use deepseek_moderation_api.Router.Tier.{PolicySettings, Entry, RouteProgress}
use deepseek_moderation_api.Router.Acquire.{
  is_used, scan, Ticket, pick_channel, acquire_route, lift_unlimited, unlimited_weight,
}
use deepseek_moderation_api.Router.Weights.{choose-All}
use deepseek_moderation_api.Router.Limits.{add_entry-All, choose_tier-All, lift_unlimited-All}

module _ (P : RouteCandidate → Type 0) where
  scan-All :
      (single : Bool) (used : List String) (now : ℕ) (cs : List RouteCandidate) (routes : Routes)
      → All (λ c. is_used used c.channel.id ≡ false → P c) cs
      → All (λ e. P e.candidate) (scan single used now cs routes).entries
  unfolding scan
  scan-All single used now [] routes a = tt
  scan-All single used now (c ∷ cs) routes a = elim (Bool-cases (is_used used c.channel.id)) [
    | inl old ↦ rw old (scan-All single used now cs routes a.1)
    | inr new ↦ rw new (
        add_entry-All (λ e. P e.candidate) c _ _ (λ r e. a.0 new)
          (scan-All single used now cs _ a.1))
  ]

  abbrev OutcomeOf : Result (Option Ticket) → Type 0
  OutcomeOf (ok (some t)) = P t.candidate
  OutcomeOf (ok none) = Unit {0}
  OutcomeOf (err e) = Unit {0}

  pick_channel-OutcomeOf :
      (single : Bool) (now : ℕ) (draw : ℕ → ℕ) (deadline : ℕ) (blocked : Bool) (routes : Routes)
      (progress : Option RouteProgress) (es : List Entry)
      → All (λ e. P e.candidate) es
      → OutcomeOf (pick_channel single now draw deadline blocked routes progress es).outcome
  unfolding pick_channel
  pick_channel-OutcomeOf single now draw deadline true routes progress [] a = tt
  pick_channel-OutcomeOf single now draw deadline false routes progress [] a = tt
  pick_channel-OutcomeOf single now draw deadline blocked routes progress (x ∷ xs) a =
      let w = unlimited_weight (x ∷ xs) in
      let lifted = lift_unlimited-All P w (x ∷ xs) a in
      choose-All (λ e. P e.candidate) (lift_unlimited w x) _ _ lifted.0 lifted

  pub acquire_route-All :
      (slots capacity : ℕ) (routes : Routes) (cs : List RouteCandidate) (settings : PolicySettings)
      (used : List String) (now : ℕ) (draw : ℕ → ℕ) (progress : Option RouteProgress) (t : Ticket)
      → All (λ c. is_used used c.channel.id ≡ false → P c) cs
      → (acquire_route slots capacity routes cs settings used now draw progress).outcome
        ≡ ok (some t)
      → P t.candidate
  unfolding acquire_route
  acquire_route-All slots capacity routes cs settings used now draw progress t a e =
      elim (Bool-cases (leb capacity slots)) [
        | inl full ↦ absurd (no_ticket (rw full at e))
        | inr room ↦ subst OutcomeOf (rw room at e) (
            pick_channel-OutcomeOf _ now draw _ _ _ _ _ (
              choose_tier-All (λ e. P e.candidate) progress _ settings now
                (scan-All (length cs == 1) used now cs routes a)))
      ]
    where
      no_ticket : err (problem 503 "capacity_exceeded") ≡ ok (some t) → ⊥
      no_ticket h = cc
