-- ===== src/Router/Limits.antt =====
-- A reservation stays within the limits of its channel.
use mathlib.Core.Path.{subst}
use deepseek_moderation_api.Prelude.{
  ℕ, zero, suc, ◌+◌, ◌≤◌, ◌<◌, ◌≡◌, refl, Bool, true, false, ◌&&◌, not, List, [], ◌∷◌, Option, none,
  some, arith, ◌==◌, inl, inr, Bool-cases, All, String, str_eq, Result, ok, err, any, length, map,
}
use deepseek_moderation_api.Clock.{after}
use deepseek_moderation_api.Router.State.{RouteCandidate, ChannelState, Routes, rpm_used}
use deepseek_moderation_api.Router.Tier.{
  PolicySettings, Entry, level, RouteProgress, Selection, lowest_open, at_level, select_tier,
  keep_tier, has_lower, gives_up, set_skipped,
}
use deepseek_moderation_api.Router.Acquire.{
  Verdict, skip, blocked_by_rpm, eligible, is_used, add_entry, Ticket, after_selection, choose_tier,
  lift_unlimited, no_skips,
}

-- What a candidate in `entries` meets in the state after the scan.
pub record IsFit (single : Bool) (used : List String) (now : ℕ) (st : ChannelState)
    (c : RouteCandidate) : Type 0 where
  pub unused : is_used used c.channel.id ≡ false
  pub free : st.in_flight < c.channel.max_concurrency
  pub quota : 0 < c.channel.rpm → rpm_used st < c.channel.rpm
  pub rested : single ≡ false → (st.until ≤ now) × (st.probe ≡ false)
  pub current : st.signature ≡ c.signature

-- The ids of the candidates from here on.
abbrev pub has_id : String → List RouteCandidate → Bool
has_id id cs = any (λ c. str_eq c.channel.id id) cs

abbrev pub DistinctIds : List RouteCandidate → Type 0
DistinctIds [] = Unit
DistinctIds (c ∷ cs) = (has_id c.channel.id cs ≡ false) × DistinctIds cs

abbrev FitEntry : Bool → List String → ℕ → Routes → Entry → Type 0
FitEntry single used now routes e =
    IsFit single used now (routes e.candidate.channel.id) e.candidate

pub add_entry-All :
    (P : Entry → Type 0) (c : RouteCandidate) (v : Verdict) (es : List Entry)
    → ((r : ℕ) → v ≡ eligible r → P (record { candidate = c; remaining = r }))
    → All P es
    → All P (add_entry c v es)
add_entry-All P c (eligible r) es p a = (p r refl, a)
add_entry-All P c skip es p a = a
add_entry-All P c blocked_by_rpm es p a = a

at_level-All :
    (P : Entry → Type 0) (skipped : ℕ → Bool) (priority : ℕ) (es : List Entry)
    → All P es
    → All P (at_level skipped priority es)
unfolding at_level
at_level-All P skipped priority [] a = tt
at_level-All P skipped priority (e ∷ es) a =
    elim (Bool-cases (not (skipped (level e)) && level e == priority)) [
      | inl kept ↦ rw kept (a.0, at_level-All P skipped priority es a.1)
      | inr left ↦ rw left (at_level-All P skipped priority es a.1)
    ]

keep_tier-tier :
    (p : RouteProgress) (settings : PolicySettings) (priority now : ℕ) (tier : List Entry)
    (lower : Bool)
    → (keep_tier p settings priority now tier lower).tier ≡ tier
unfolding keep_tier
keep_tier-tier p settings priority now tier lower = ground arith

select_tier-All :
    (P : Entry → Type 0) (fuel : ℕ) (p : RouteProgress) (es : List Entry)
    (settings : PolicySettings) (now : ℕ) (s : Selection)
    → All P es
    → select_tier fuel p es settings now ≡ some s
    → All P s.tier
unfolding select_tier
select_tier-All P zero p es settings now s a e = cc
select_tier-All P (suc fuel) p es settings now s a e = elim (Bool-cases (length tier == 0)) [
  | inl nothing ↦
      let e' : some (record { progress = p; tier = []; call_deadline = 0 }) ≡ some s =
        rw nothing at e in
      subst (λ (x : Option Selection). TierOf x) e' tt
  | inr something ↦ elim (Bool-cases (lower && gives_up p settings priority now)) [
    | inl given_up ↦
        select_tier-All P fuel (record p { skipped = set_skipped p.skipped priority }) es settings
          now s a (rw (something, given_up) at e)
    | inr kept ↦
        let e' : some (keep_tier p settings priority now tier lower) ≡ some s =
          rw (something, kept) at e in
        subst (λ (x : Option Selection). TierOf x) e'
          (rw (keep_tier-tier p settings priority now tier lower)
            (at_level-All P p.skipped priority es a))
  ]
]
  where
    priority : ℕ
    priority = lowest_open p.skipped es

    tier : List Entry
    tier = at_level p.skipped priority es

    lower : Bool
    lower = has_lower p.skipped priority es

    TierOf : Option Selection → Type 0
    TierOf none = Unit {0}
    TierOf (some s) = All P s.tier

after_selection-All :
    (P : Entry → Type 0) (p : RouteProgress) (o : Option Selection)
    → ((s : Selection) → o ≡ some s → All P s.tier)
    → All P (after_selection p o).1
after_selection-All P p none f = tt
after_selection-All P p (some s) f = f s refl

pub choose_tier-All :
    (P : Entry → Type 0) (progress : Option RouteProgress) (es : List Entry)
    (settings : PolicySettings) (now : ℕ)
    → All P es
    → All P (choose_tier progress es settings now).1
unfolding choose_tier
choose_tier-All P none es settings now a = at_level-All P no_skips (lowest_open no_skips es) es a
choose_tier-All P (some p) es settings now a =
    after_selection-All P p (select_tier (suc (length es)) p es settings now)
      (λ s e. select_tier-All P (suc (length es)) p es settings now s a e)

pub lift_unlimited-All :
    (P : RouteCandidate → Type 0) (w : ℕ) (es : List Entry)
    → All (λ e. P e.candidate) es
    → All (λ e. P e.candidate) (map (lift_unlimited w) es)
lift_unlimited-All P w [] a = tt
lift_unlimited-All P w (e ∷ es) a = (lifted e a.0, lift_unlimited-All P w es a.1)
  where
    lifted : (e : Entry) → P e.candidate → P (lift_unlimited w e).candidate
    lifted e p = elim (Bool-cases (e.candidate.channel.rpm == 0)) [
      | inl unlimited ↦ rw unlimited p
      | inr limited ↦ rw limited p
    ]

-- What a reservation leaves: the channel that was chosen was not used before, is now within its
-- concurrency and, if it has one, within its quota of requests per minute; unless the policy has
-- but one channel, it was neither cooling nor being probed.
pub record IsGranted (used : List String) (now : ℕ) (before after : Routes) (t : Ticket)
    : Type 0 where
  pub unused : is_used used t.candidate.channel.id ≡ false
  pub in_flight : (after t.candidate.channel.id).in_flight ≤ t.candidate.channel.max_concurrency
  pub quota :
      0 < t.candidate.channel.rpm
      → rpm_used (after t.candidate.channel.id) ≤ t.candidate.channel.rpm
  pub rested :
      t.single ≡ false
      → ((before t.candidate.channel.id).until ≤ now)
        × ((before t.candidate.channel.id).probe ≡ false)
  pub counted :
      (after t.candidate.channel.id).in_flight ≡ (before t.candidate.channel.id).in_flight + 1
  pub probing : t.is_probe ≡ true → (after t.candidate.channel.id).probe ≡ true
  pub current : (after t.candidate.channel.id).signature ≡ t.candidate.signature

abbrev GrantedOf : List String → ℕ → Routes → Routes → Result (Option Ticket) → Type 0
GrantedOf used now before after (ok (some t)) = IsGranted used now before after t
GrantedOf used now before after (ok none) = Unit {0}
GrantedOf used now before after (err e) = Unit {0}
