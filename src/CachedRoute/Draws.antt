-- ===== src/CachedRoute/Draws.antt =====
-- The numbers drawn in the look into the result cache (internal/audit/cache_route.go).
use deepseek_moderation_api.Prelude.{ℕ, ◌<◌, ◌≤◌, List, [], ◌∷◌, arith, ==_iff, All}
use deepseek_moderation_api.Router.State.{RouteCandidate}
use deepseek_moderation_api.CachedRoute.{next_priority, next_weight, first_level}

-- What the validation of bindings gives.
abbrev pub IsWeighted : RouteCandidate → Type 0
IsWeighted c = (c.binding.priority ≤ 100) × (0 < c.binding.weight)

next_weight-pos : (p w : ℕ) (c : RouteCandidate) → IsWeighted c → 0 < w → 0 < next_weight p w c
next_weight-pos p w c h l = ground (arith, ==_iff c.binding.priority (next_priority p c))

first_level-pos :
    (p w : ℕ) (cs : List RouteCandidate) → All IsWeighted cs → 0 < w → 0 < (first_level p w cs).1
unfolding first_level
first_level-pos p w [] a l = l
first_level-pos p w (c ∷ cs) a l =
    first_level-pos (next_priority p c) (next_weight p w c) cs a.1 (next_weight-pos p w c a.0 l)

-- While candidates are left whose priorities are at most 100 and whose weights are positive, the
-- number is drawn from a range that is not empty.
pub first_level-draws :
    (c : RouteCandidate) (cs : List RouteCandidate)
    → All IsWeighted (c ∷ cs)
    → 0 < (first_level 101 0 (c ∷ cs)).1
unfolding first_level
first_level-draws c cs a =
    first_level-pos (next_priority 101 c) (next_weight 101 0 c) cs a.1
      (ground (arith, ==_iff c.binding.priority (next_priority 101 c)))
