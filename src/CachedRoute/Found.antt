-- ===== src/CachedRoute/Found.antt =====
-- What the look into the result cache finds (internal/audit/cache_route.go).
use deepseek_moderation_api.Prelude.{
  ℕ, suc, zero, ◌≤◌, ◌≡◌, refl, ap, Bool, true, false, ◌&&◌, ◌||◌, not, List, [], ◌∷◌, Option, none,
  some, length, All, arith, String, Result, ok, err,
}
use deepseek_moderation_api.Router.State.{RouteCandidate}
use deepseek_moderation_api.CachedRoute.{
  first_level, drawn_index, or_first, take_at, Lookup, miss, hit, CacheAnswers, charge_cached,
  use_value, consider_cached, value_of, look_up, cached_route,
}

-- Taking one element takes one off the length, and what holds of all holds of it and of the others.
take_at-All :
    (P : RouteCandidate → Type 0) (c : RouteCandidate) (cs : List RouteCandidate) (i : ℕ)
    → All P (c ∷ cs)
    → P (take_at c cs i).0 × All P (take_at c cs i).1
unfolding take_at
take_at-All P c cs zero a = a
take_at-All P c [] (suc i) a = a
take_at-All P c (d ∷ ds) (suc i) a = let (p, rest) = take_at-All P d ds i a.1 in (p, (a.0, rest))

All-take_at :
    (P : RouteCandidate → Type 0) (c : RouteCandidate) (cs : List RouteCandidate) (i : ℕ)
    → P (take_at c cs i).0
    → All P (take_at c cs i).1
    → All P (c ∷ cs)
unfolding take_at
All-take_at P c cs zero p a = (p, a)
All-take_at P c [] (suc i) p a = (p, a)
All-take_at P c (d ∷ ds) (suc i) p a = (a.0, All-take_at P d ds i p a.1)

length-take_at :
    (c : RouteCandidate) (cs : List RouteCandidate) (i : ℕ) → length (take_at c cs i).1 ≡ length cs
unfolding take_at
length-take_at c cs zero = refl
length-take_at c [] (suc i) = refl
length-take_at c (d ∷ ds) (suc i) = rw (length-take_at d ds i) refl

-- The channel is still active.
abbrev pub is_on : Result (Option Bool) → Bool
is_on (err e) = false
is_on (ok none) = false
is_on (ok (some b)) = b

abbrev pub is_err : {A : Type 0} → Result A → Bool
is_err (err e) = true
is_err (ok v) = false

abbrev pub is_some : {A : Type 0} → Option A → Bool
is_some none = false
is_some (some v) = true

module _ {Value : Type 0} (a : CacheAnswers Value) where
  abbrev pub is_usable : (String → Option Value) → RouteCandidate → Bool
  is_usable values c = is_some (value_of a values c) && is_on (a.active c)

  -- A candidate with a value about which the database fails.
  abbrev pub is_failing : (String → Option Value) → RouteCandidate → Bool
  is_failing values c =
      is_some (value_of a values c)
      && (is_err (a.active c) || is_on (a.active c) && (is_err (a.reserve c) || not (a.recorded c)))

  abbrev pub IsAnswer :
      (P : RouteCandidate → Type 0)
      → (String → Option Value)
      → List RouteCandidate
      → Result (Lookup Value)
      → Type 0
  IsAnswer P values cs (err e) = (c : RouteCandidate) × P c × (is_failing values c ≡ true)
  IsAnswer P values cs (ok miss) = All (λ c. is_usable values c ≡ false) cs
  IsAnswer P values cs (ok (hit c v)) =
      P c
      × (value_of a values c ≡ some v)
      × (is_on (a.active c) ≡ true)
      × (is_err (a.reserve c) ≡ false)
      × (a.recorded c ≡ true)

  module _ (P : RouteCandidate → Type 0) (values : String → Option Value) (cs : List RouteCandidate)
      (c : RouteCandidate) (p : P c) (v : Value) (found : value_of a values c ≡ some v) where
    charge_cached-IsAnswer :
        (reserved : Result (Unit {0})) (recorded : Bool)
        → is_on (a.active c) ≡ true
        → is_err (a.active c) ≡ false
        → a.reserve c ≡ reserved
        → a.recorded c ≡ recorded
        → IsAnswer P values cs (charge_cached c v reserved recorded)
    charge_cached-IsAnswer (err e) recorded on fine r s = (c, p, rw (found, on, fine, r) refl)
    charge_cached-IsAnswer (ok u) false on fine r s = (c, p, rw (found, on, fine, r, s) refl)
    charge_cached-IsAnswer (ok u) true on fine r s = (p, found, on, ap is_err r, s)

    use_value-IsAnswer :
        (active : Result (Option Bool)) (rest : Result (Lookup Value))
        → a.active c ≡ active
        → (is_usable values c ≡ false → IsAnswer P values cs rest)
        → IsAnswer P values cs (use_value a c v active rest)
    use_value-IsAnswer (err e) rest r k = (c, p, rw (found, r) refl)
    use_value-IsAnswer (ok none) rest r k = k (rw (found, r) refl)
    use_value-IsAnswer (ok (some false)) rest r k = k (rw (found, r) refl)
    use_value-IsAnswer (ok (some true)) rest r k =
        charge_cached-IsAnswer (a.reserve c) (a.recorded c) (ap is_on r) (ap is_err r) refl refl

  consider_cached-IsAnswer :
      (P : RouteCandidate → Type 0) (values : String → Option Value) (cs : List RouteCandidate)
      (c : RouteCandidate) (value : Option Value) (rest : Result (Lookup Value))
      → P c
      → value_of a values c ≡ value
      → (is_usable values c ≡ false → IsAnswer P values cs rest)
      → IsAnswer P values cs (consider_cached a c value rest)
  consider_cached-IsAnswer P values cs c none rest p e k = k (rw e refl)
  consider_cached-IsAnswer P values cs c (some v) rest p e k =
      use_value-IsAnswer P values cs c p v e (a.active c) rest refl k

  -- An answer for the others is one for all, if the candidate taken is not usable.
  more-IsAnswer :
      (P : RouteCandidate → Type 0) (values : String → Option Value) (cs ds : List RouteCandidate)
      (answer : Result (Lookup Value))
      → (All (λ c. is_usable values c ≡ false) ds → All (λ c. is_usable values c ≡ false) cs)
      → IsAnswer P values ds answer
      → IsAnswer P values cs answer
  more-IsAnswer P values cs ds (err e) more i = i
  more-IsAnswer P values cs ds (ok miss) more i = more i
  more-IsAnswer P values cs ds (ok (hit c v)) more i = i

  look_up-IsAnswer :
      (P : RouteCandidate → Type 0) (fuel : ℕ) (values : String → Option Value)
      (cs : List RouteCandidate)
      → length cs ≤ fuel
      → All P cs
      → IsAnswer P values cs (look_up a fuel values cs)
  unfolding look_up
  look_up-IsAnswer P zero values [] l all_p = tt
  look_up-IsAnswer P zero values (c ∷ cs) l all_p = absurd (omega arith)
  look_up-IsAnswer P (suc fuel) values [] l all_p = tt
  look_up-IsAnswer P (suc fuel) values (c ∷ cs) l all_p =
      let (p, w) = first_level 101 0 (c ∷ cs) in
      let i = or_first (drawn_index p (a.draw (length (c ∷ cs)) w) (c ∷ cs)) in
      let (px, rest) = take_at-All P c cs i all_p in
      let n = length-take_at c cs i in
      let x = (take_at c cs i).0 in
      let remaining = (take_at c cs i).1 in
      consider_cached-IsAnswer P values (c ∷ cs) x (value_of a values x)
        (look_up a fuel values remaining) px refl
        (λ unused.
          more-IsAnswer P values (c ∷ cs) remaining (look_up a fuel values remaining)
            (All-take_at (λ c. is_usable values c ≡ false) c cs i unused)
            (look_up-IsAnswer P fuel values remaining (omega arith) rest))

  -- Where the cache can be read, whatever numbers are drawn: a hit is a candidate (what holds of all
  -- candidates holds of it) and the value that the cache has for it, its channel is active, and its
  -- cost is reserved and recorded. After a miss no candidate has both a value and an active channel.
  -- An error comes from a candidate with a value, about which the database fails.
  pub cached_route-IsAnswer :
      (P : RouteCandidate → Type 0) (values : String → Option Value) (cs : List RouteCandidate)
      → All P cs
      → IsAnswer P values cs (cached_route a (ok values) cs)
  unfolding cached_route
  cached_route-IsAnswer P values cs all_p =
      look_up-IsAnswer P (length cs) values cs (omega arith) all_p
