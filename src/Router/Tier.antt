-- ===== src/Router/Tier.antt =====
-- The tier of channels that a request tries next: `routeProgress` and `selectTier` of
-- internal/audit/route_failover.go, with the settings they read (internal/audit/model.go). The maps
-- of a request's progress are functions of the priority; an absent deadline is the zero time.
use deepseek_moderation_api.Prelude.{
  ℕ, zero, suc, ◌+◌, ◌-◌, ◌*◌, ◌/◌, Bool, true, false, ◌&&◌, ◌||◌, not, List, [], ◌∷◌, Option, none,
  some, ltb, leb, ◌==◌, if◌then◌else◌, length, min, any,
}
use deepseek_moderation_api.Clock.{millisecond, minute, is_zero, before}
use deepseek_moderation_api.Router.State.{RouteCandidate}

pub record PolicySettings : Type 0 where
  pub max_attempts_per_priority : ℕ
  pub priority_timeout_ms : ℕ
  pub failure_threshold : ℕ
  pub failure_cooldown_minutes : ℕ

-- Zero stands for the default in policies that were saved before a setting existed.
abbrev pub or_default : ℕ → ℕ → ℕ
or_default d n = if n == 0 then d else n

unfoldable pub attempts_per_priority : PolicySettings → ℕ
attempts_per_priority s = or_default 2 s.max_attempts_per_priority

unfoldable pub priority_timeout : PolicySettings → ℕ
priority_timeout s = or_default 4000 s.priority_timeout_ms * millisecond

unfoldable pub failure_threshold : PolicySettings → ℕ
failure_threshold s = or_default 3 s.failure_threshold

unfoldable pub failure_cooldown : PolicySettings → ℕ
failure_cooldown s = or_default 30 s.failure_cooldown_minutes * minute

-- An index of `eligible` with its entry of the array `remaining`.
pub record Entry : Type 0 where
  pub candidate : RouteCandidate
  pub remaining : ℕ

abbrev pub level : Entry → ℕ
level e = e.candidate.binding.priority

pub record RouteProgress : Type 0 where
  pub attempts : ℕ → ℕ
  pub deadlines : ℕ → ℕ
  pub skipped : ℕ → Bool
  pub total_attempts : ℕ
  pub max_attempts : ℕ
  pub deadline : ℕ

unfoldable pub new_route_progress : (deadline max_attempts : ℕ) → RouteProgress
new_route_progress deadline max_attempts = record {
  attempts = λ _. 0;
  deadlines = λ _. 0;
  skipped = λ _. false;
  total_attempts = 0;
  max_attempts = max_attempts;
  deadline = deadline;
}

-- The lowest level that is not skipped; 101 where there is none.
unfoldable pub lowest_open : (ℕ → Bool) → List Entry → ℕ
lowest_open skipped [] = 101
lowest_open skipped (e ∷ es) =
    let rest = lowest_open skipped es in if skipped (level e) then rest else min (level e) rest

unfoldable pub at_level : (ℕ → Bool) → ℕ → List Entry → List Entry
at_level skipped priority [] = []
at_level skipped priority (e ∷ es) =
    let rest = at_level skipped priority es in
    if not (skipped (level e)) && level e == priority then e ∷ rest else rest

unfoldable pub has_lower : (ℕ → Bool) → ℕ → List Entry → Bool
has_lower skipped priority es = any (λ e. not (skipped (level e)) && ltb priority (level e)) es

-- now.Add(deadline.Sub(now) / 2); the division rounds a negative duration towards 0.
unfoldable pub half_left : (deadline now : ℕ) → ℕ
half_left deadline now =
    if leb now deadline then now + (deadline - now) / 2 else now - (now - deadline) / 2

abbrev pub set_skipped : (ℕ → Bool) → ℕ → ℕ → Bool
set_skipped skipped priority j = if j == priority then true else skipped j

abbrev pub set_deadline : (ℕ → ℕ) → ℕ → ℕ → ℕ → ℕ
set_deadline deadlines priority t j = if j == priority then t else deadlines j

-- The test by which the loop gives a tier up.
unfoldable pub gives_up : RouteProgress → PolicySettings → (priority now : ℕ) → Bool
unfolding attempts_per_priority
gives_up p settings priority now =
    leb (attempts_per_priority settings) (p.attempts priority)
    || p.max_attempts - p.total_attempts == 1 && ltb 0 (p.attempts priority)
    || not (is_zero (p.deadlines priority)) && not (before now (p.deadlines priority))

-- The deadline of the tier, set when it is first tried.
unfoldable pub tier_deadline : RouteProgress → PolicySettings → (priority now call_deadline : ℕ) → ℕ
unfolding priority_timeout
tier_deadline p settings priority now call_deadline =
    let fresh = now + priority_timeout settings in
    if is_zero (p.deadlines priority)
    then if not (is_zero call_deadline) && before call_deadline fresh then call_deadline else fresh
    else p.deadlines priority

pub record Selection : Type 0 where
  pub progress : RouteProgress
  pub tier : List Entry
  pub call_deadline : ℕ

-- The rest of a round, once the tier is kept.
unfoldable pub keep_tier :
    RouteProgress → PolicySettings → (priority now : ℕ) → List Entry → Bool → Selection
keep_tier p settings priority now tier lower =
    let call_deadline = if is_zero p.deadline then 0 else half_left p.deadline now in
    let t = tier_deadline p settings priority now call_deadline in
    if leb (p.max_attempts - p.total_attempts) 1 || length tier == 1 && not lower
    then record { progress = p; tier = tier; call_deadline = 0 }
    else if lower
    then record {
      progress = record p { deadlines = set_deadline p.deadlines priority t };
      tier = tier;
      call_deadline = if is_zero call_deadline || before t call_deadline then t else call_deadline;
    }
    else record { progress = p; tier = tier; call_deadline = call_deadline }

-- The loop of `selectTier`: each round that does not return skips one more level. `none` is a loop
-- that has not ended within the fuel.
unfoldable pub select_tier :
    ℕ → RouteProgress → List Entry → PolicySettings → (now : ℕ) → Option Selection
select_tier zero p eligible settings now = none
select_tier (suc fuel) p eligible settings now =
    let priority = lowest_open p.skipped eligible in
    let tier = at_level p.skipped priority eligible in
    let lower = has_lower p.skipped priority eligible in
    let rest =
      select_tier fuel (record p { skipped = set_skipped p.skipped priority }) eligible settings
        now in
    if length tier == 0
    then some (record { progress = p; tier = []; call_deadline = 0 })
    else if lower && gives_up p settings priority now
    then rest
    else some (keep_tier p settings priority now tier lower)
