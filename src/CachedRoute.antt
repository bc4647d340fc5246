-- ===== src/CachedRoute.antt =====
-- The look into the result cache before a request is sent: `cachedRoute` of
-- internal/audit/cache_route.go. What the cache and the database answer about a candidate is a
-- parameter.
pub mod Found
pub mod Draws
use deepseek_moderation_api.Prelude.{
  ℕ, suc, zero, ◌+◌, ◌-◌, Bool, true, false, ◌&&◌, ◌||◌, not, List, [], ◌∷◌, Option, none, some,
  ltb, ◌==◌, if◌then◌else◌, length, String, str_eq, Failure, Result, ok, err, problem,
}
use deepseek_moderation_api.Router.State.{RouteCandidate}

abbrev pub next_priority : ℕ → RouteCandidate → ℕ
next_priority p c = if ltb c.binding.priority p then c.binding.priority else p

abbrev pub next_weight : ℕ → ℕ → RouteCandidate → ℕ
next_weight p w c =
    (if ltb c.binding.priority p then 0 else w)
    + (if c.binding.priority == next_priority p c then c.binding.weight else 0)

-- The lowest priority and the weight of the candidates that have it.
unfoldable pub first_level : (priority weight : ℕ) → List RouteCandidate → ℕ × ℕ
first_level p w [] = (p, w)
first_level p w (c ∷ cs) = first_level (next_priority p c) (next_weight p w c) cs

abbrev pub one_more : Option ℕ → Option ℕ
one_more none = none
one_more (some i) = some (suc i)

-- The index at which the weights of the level pass the number drawn.
unfoldable pub drawn_index : (priority pick : ℕ) → List RouteCandidate → Option ℕ
drawn_index p pick [] = none
drawn_index p pick (c ∷ cs) =
    let later = drawn_index p (pick - c.binding.weight) cs in
    let other = drawn_index p pick cs in
    if not (c.binding.priority == p)
    then one_more other
    else if ltb pick c.binding.weight
    then some 0
    else one_more later

abbrev pub or_first : Option ℕ → ℕ
or_first none = 0
or_first (some i) = i

-- The element at an index, and the others.
unfoldable pub take_at :
    RouteCandidate → List RouteCandidate → ℕ → RouteCandidate × List RouteCandidate
take_at c cs zero = (c, cs)
take_at c [] (suc i) = (c, [])
take_at c (d ∷ ds) (suc i) = let (x, rest) = take_at d ds i in (x, c ∷ rest)

pub data Lookup (Value : Type 0) : Type 0 where
  miss : Lookup Value
  hit : RouteCandidate → Value → Lookup Value

-- `active` has no row for a channel that was changed; `recorded` is whether the cost is settled.
pub record CacheAnswers (Value : Type 0) : Type 0 where
  pub cache_key : RouteCandidate → String
  pub active : RouteCandidate → Result (Option Bool)
  pub reserve : RouteCandidate → Result (Unit {0})
  pub recorded : RouteCandidate → Bool
  pub draw : (remaining weight : ℕ) → ℕ

abbrev pub charge_cached :
    {Value : Type 0} → RouteCandidate → Value → Result (Unit {0}) → Bool → Result (Lookup Value)
charge_cached c v (err e) recorded = err e
charge_cached c v (ok u) false = err (problem 503 "cost_record_unavailable")
charge_cached c v (ok u) true = ok (hit c v)

module _ {Value : Type 0} (a : CacheAnswers Value) where
  abbrev pub use_value :
      RouteCandidate
      → Value
      → Result (Option Bool)
      → (rest : Result (Lookup Value)) → Result (Lookup Value)
  use_value c v (err e) rest = err e
  use_value c v (ok none) rest = rest
  use_value c v (ok (some false)) rest = rest
  use_value c v (ok (some true)) rest = charge_cached c v (a.reserve c) (a.recorded c)

  abbrev pub consider_cached :
      RouteCandidate → Option Value → (rest : Result (Lookup Value)) → Result (Lookup Value)
  consider_cached c none rest = rest
  consider_cached c (some v) rest = use_value c v (a.active c) rest

  -- A candidate without a key is not asked for.
  abbrev pub value_of : (String → Option Value) → RouteCandidate → Option Value
  value_of values c = if str_eq (a.cache_key c) "" then none else values (a.cache_key c)

  abbrev pub pick_candidate :
      RouteCandidate → List RouteCandidate → RouteCandidate × List RouteCandidate
  pick_candidate c cs =
      let (p, w) = first_level 101 0 (c ∷ cs) in
      take_at c cs (or_first (drawn_index p (a.draw (length (c ∷ cs)) w) (c ∷ cs)))

  unfoldable pub look_up :
      (fuel : ℕ) → (String → Option Value) → List RouteCandidate → Result (Lookup Value)
  unfolding first_level drawn_index take_at
  look_up zero values cs = ok miss
  look_up (suc fuel) values [] = ok miss
  look_up (suc fuel) values (c ∷ cs) =
      let (x, remaining) = pick_candidate c cs in
      let rest = look_up fuel values remaining in consider_cached x (value_of values x) rest

  -- Each round takes one candidate, so a round for each is enough.
  unfoldable pub cached_route :
      Result (String → Option Value) → List RouteCandidate → Result (Lookup Value)
  unfolding look_up
  cached_route (err e) candidates = err (problem 503 "cache_unavailable")
  cached_route (ok values) candidates = look_up (length candidates) values candidates
