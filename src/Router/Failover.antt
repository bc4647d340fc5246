-- ===== src/Router/Failover.antt =====
-- The search for a tier ends, and finds one: `selectTier` of internal/audit/route_failover.go.
use deepseek_moderation_api.Prelude.{
  ℕ, zero, suc, ◌+◌, ◌≤◌, ◌<◌, ◌≡◌, refl, Bool, true, ◌&&◌, ◌||◌, List, [], ◌∷◌, some, arith, ◌==◌,
  if◌then◌else◌, length, inl, inr, Bool-cases, All,
}
use deepseek_moderation_api.Clock.{is_zero, before}
use deepseek_moderation_api.Router.Tier.{
  PolicySettings, Entry, level, RouteProgress, Selection, lowest_open, at_level, has_lower,
  half_left, set_skipped, gives_up, tier_deadline, keep_tier, select_tier,
}

-- The entries whose level is not skipped.
abbrev open_count : (ℕ → Bool) → List Entry → ℕ
open_count skipped [] = 0
open_count skipped (e ∷ es) = (if skipped (level e) then 0 else 1) + open_count skipped es

-- Skipping a level takes its tier from the open entries.
open_count-set_skipped :
    (skipped : ℕ → Bool) (l : ℕ) (es : List Entry)
    → open_count (set_skipped skipped l) es + length (at_level skipped l es) ≡ open_count skipped es
unfolding at_level
open_count-set_skipped skipped l [] = omega arith
open_count-set_skipped skipped l (e ∷ es) = ground (arith, open_count-set_skipped skipped l es)

open_count-has_lower :
    (skipped : ℕ → Bool) (l : ℕ) (es : List Entry)
    → has_lower skipped l es ≡ true
    → 0 < open_count (set_skipped skipped l) es
unfolding has_lower
open_count-has_lower skipped l [] h = cc
open_count-has_lower skipped l (e ∷ es) h = ground (arith, open_count-has_lower skipped l es)

lowest_open-le :
    (skipped : ℕ → Bool) (es : List Entry)
    → All (λ e. level e ≤ 100) es
    → 0 < open_count skipped es
    → lowest_open skipped es ≤ 100
unfolding lowest_open
lowest_open-le skipped [] a h = absurd (omega (arith, h))
lowest_open-le skipped (e ∷ es) a h = ground (arith, lowest_open-le skipped es a.1)

-- The tier of the lowest open level is not empty.
at_level-lowest_open :
    (skipped : ℕ → Bool) (es : List Entry)
    → lowest_open skipped es ≤ 100
    → 0 < length (at_level skipped (lowest_open skipped es) es)
unfolding at_level lowest_open
at_level-lowest_open skipped [] h = absurd (omega (arith, h))
at_level-lowest_open skipped (e ∷ es) h = ground (arith, at_level-lowest_open skipped es)

-- What a tier that the search returns is.
pub record IsTier (p : RouteProgress) (es : List Entry) (now : ℕ) (s : Selection) : Type 0 where
  pub lowest : s.tier ≡ at_level s.progress.skipped (lowest_open s.progress.skipped es) es
  pub left : 0 < open_count p.skipped es → 0 < length s.tier
  pub grows : (l : ℕ) → p.skipped l ≡ true → s.progress.skipped l ≡ true
  pub in_time : 0 < now → now ≤ p.deadline → s.call_deadline ≤ p.deadline

half_left-le :
    (deadline now : ℕ)
    → 0 < now
    → now ≤ deadline
    → (0 < half_left deadline now) × (half_left deadline now ≤ deadline)
unfolding half_left
half_left-le deadline now pos h = ground arith

earlier-le : (t c d : ℕ) → 0 < c → c ≤ d → (if is_zero c || before t c then t else c) ≤ d
earlier-le t c d pos h = ground arith

keep_tier-skipped :
    (p : RouteProgress) (settings : PolicySettings) (priority now : ℕ) (tier : List Entry)
    (lower : Bool)
    → ((keep_tier p settings priority now tier lower).progress.skipped ≡ p.skipped)
      × ((keep_tier p settings priority now tier lower).tier ≡ tier)
unfolding keep_tier
keep_tier-skipped p settings priority now tier lower = ground arith

request_half :
    (deadline now : ℕ)
    → 0 < now
    → now ≤ deadline
    → (if is_zero deadline then 0 else half_left deadline now) ≡ half_left deadline now
request_half deadline now pos h = ground arith

keep_tier-in_time :
    (p : RouteProgress) (settings : PolicySettings) (priority now : ℕ) (tier : List Entry)
    (lower : Bool)
    → 0 < now
    → now ≤ p.deadline
    → (keep_tier p settings priority now tier lower).call_deadline ≤ p.deadline
unfolding keep_tier
keep_tier-in_time p settings priority now tier lower pos h =
    let c = half_left p.deadline now in
    let (some_half, early) = half_left-le p.deadline now pos h in
    let t = tier_deadline p settings priority now c in
    rw (request_half p.deadline now pos h)
      (ground (arith, earlier-le t c p.deadline some_half early))

empty-length : (xs : List Entry) → (length xs == 0) ≡ true → [] ≡ xs
empty-length [] h = refl
empty-length (x ∷ xs) h = absurd (ground arith)

kept-IsTier :
    (p : RouteProgress) (es : List Entry) (settings : PolicySettings) (now : ℕ) (lower : Bool)
    → All (λ e. level e ≤ 100) es
    → let priority = lowest_open p.skipped es in
      IsTier p es now (keep_tier p settings priority now (at_level p.skipped priority es) lower)
kept-IsTier p es settings now lower a =
    let priority = lowest_open p.skipped es in
    let tier = at_level p.skipped priority es in
    let (skips, same) = keep_tier-skipped p settings priority now tier lower in
    record {
      lowest = rw (skips, same) refl;
      left = λ h. rw same (at_level-lowest_open p.skipped es (lowest_open-le p.skipped es a h));
      grows = λ l h. rw skips h;
      in_time = λ d h. keep_tier-in_time p settings priority now tier lower d h;
    }

set_skipped-grows :
    (skipped : ℕ → Bool) (l j : ℕ) → skipped j ≡ true → set_skipped skipped l j ≡ true
set_skipped-grows skipped l j h = ground arith

-- A tier that is found after one level was given up is one of the search from before.
skipped-IsTier :
    (p : RouteProgress) (es : List Entry) (now l : ℕ) (s : Selection)
    → has_lower p.skipped l es ≡ true
    → IsTier (record p { skipped = set_skipped p.skipped l }) es now s
    → IsTier p es now s
skipped-IsTier p es now l s lower t = record {
  lowest = t.lowest;
  left = λ h. t.left (open_count-has_lower p.skipped l es lower);
  grows = λ j h. t.grows j (set_skipped-grows p.skipped l j h);
  in_time = t.in_time;
}

nothing-IsTier :
    (p : RouteProgress) (es : List Entry) (now : ℕ)
    → All (λ e. level e ≤ 100) es
    → (length (at_level p.skipped (lowest_open p.skipped es) es) == 0) ≡ true
    → IsTier p es now (record { progress = p; tier = []; call_deadline = 0 })
nothing-IsTier p es now a nothing = record {
  lowest = empty-length _ nothing;
  left = λ h.
      absurd (ground (arith, at_level-lowest_open p.skipped es (lowest_open-le p.skipped es a h)));
  grows = λ l h. h;
  in_time = λ d h. omega arith;
}

select_tier-IsTier :
    (fuel : ℕ) (p : RouteProgress) (es : List Entry) (settings : PolicySettings) (now : ℕ)
    → All (λ e. level e ≤ 100) es
    → open_count p.skipped es < fuel
    → (s : Selection) × (select_tier fuel p es settings now ≡ some s) × IsTier p es now s
unfolding select_tier
select_tier-IsTier zero p es settings now a h = absurd (omega (arith, h))
select_tier-IsTier (suc fuel) p es settings now a h =
    let priority = lowest_open p.skipped es in
    let tier = at_level p.skipped priority es in
    let lower = has_lower p.skipped priority es in
    elim (Bool-cases (length tier == 0)) [
      | inl nothing ↦ (_, rw nothing refl, nothing-IsTier p es now a nothing)
      | inr something ↦ elim (Bool-cases (lower && gives_up p settings priority now)) [
        | inl given_up ↦
            let fewer : open_count (set_skipped p.skipped priority) es < fuel =
              ground (arith, open_count-set_skipped p.skipped priority es) in
            let (s, e, t) =
              select_tier-IsTier fuel (record p { skipped = set_skipped p.skipped priority }) es
                settings now a fewer in
            let below : lower ≡ true = ground arith in
            (s, rw (something, given_up) e, skipped-IsTier p es now priority s below t)
        | inr kept ↦ (_, rw (something, kept) refl, kept-IsTier p es settings now lower a)
      ]
    ]

open_count-le-length : (skipped : ℕ → Bool) (es : List Entry) → open_count skipped es ≤ length es
open_count-le-length skipped [] = omega arith
open_count-le-length skipped (e ∷ es) = ground (arith, open_count-le-length skipped es)

-- The search always ends, within one round for each eligible channel and one more. It returns the
-- channels of the lowest level that is not given up; it returns none only if every level was given
-- up before, since the last open level is never given up; what was given up stays so; and the
-- deadline for the call is not after the request's, where that has not passed. Priorities are at most 100.
pub select_tier-total :
    (p : RouteProgress) (es : List Entry) (settings : PolicySettings) (now : ℕ)
    → All (λ e. level e ≤ 100) es
    → (s : Selection) × (select_tier (suc (length es)) p es settings now ≡ some s)
      × IsTier p es now s
select_tier-total p es settings now a =
    select_tier-IsTier (suc (length es)) p es settings now a
      (omega (arith, open_count-le-length p.skipped es))
