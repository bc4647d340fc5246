-- ===== src/Policy/Bindings.antt =====
-- What the validation of a policy says of its bindings (internal/audit/model.go).
use deepseek_moderation_api.Prelude.{
  ℕ, ◌≤◌, ◌≡◌, true, false, List, [], ◌∷◌, none, some, String, str_eq, arith, Bool-cases,
  Option-cases, inl, inr, &&-eq_true,
}
use mathlib.Core.Path.{subst}
use deepseek_moderation_api.Prelude.Int.{ℤ, pos, negsuc, pos_part}
use deepseek_moderation_api.Policy.Config.{within}
use deepseek_moderation_api.Policy.Settings.{
  ChannelBinding, bindings_valid, PolicySettings, bindings, validate_settings, limits_valid,
  texts_valid, typesafe_question,
}
use deepseek_moderation_api.Policy.Candidates.{find_binding, Environment}

pub record IsInRange (b : ChannelBinding) : Type 0 where
  pub priority_low : 1 ≤ pos_part b.priority
  pub priority_high : pos_part b.priority ≤ 100
  pub weight_low : 1 ≤ pos_part b.weight
  pub weight_high : pos_part b.weight ≤ 1000

pub within_bounds :
    (lo hi : ℕ) (n : ℤ) → within lo hi n ≡ true → (lo ≤ pos_part n) × (pos_part n ≤ hi)
within_bounds lo hi (pos n) h = ground arith
within_bounds lo hi (negsuc n) h = cc

first-IsInRange :
    (seen : List String) (b : ChannelBinding) (bs : List ChannelBinding)
    → bindings_valid seen (b ∷ bs) ≡ true
    → IsInRange b × (bindings_valid (b.channel_id ∷ seen) bs ≡ true)
unfolding bindings_valid
first-IsInRange seen b bs h =
    let p = within_bounds 1 100 b.priority (ground arith) in
    let w = within_bounds 1 1000 b.weight (ground arith) in
    (
      record { priority_low = p.0; priority_high = p.1; weight_low = w.0; weight_high = w.1 },
      ground arith,
    )

pub find_binding-IsInRange :
    (seen : List String) (id : String) (bs : List ChannelBinding) (b : ChannelBinding)
    → bindings_valid seen bs ≡ true
    → find_binding id bs ≡ some b
    → IsInRange b
unfolding find_binding
find_binding-IsInRange seen id [] b h e = cc
find_binding-IsInRange seen id (x ∷ xs) b h e =
    let first = first-IsInRange seen x xs h in
    elim (Option-cases (find_binding id xs)) [
      | inl nothing ↦ elim (Bool-cases (str_eq x.channel_id id)) [
        | inl same ↦
            let e' : some x ≡ some b = rw (nothing, same) at e in
            let e'' : x ≡ b = cc in subst IsInRange e'' first.0
        | inr other ↦ let e' : none ≡ some b = rw (nothing, other) at e in cc
      ]
      | inr (later, found) ↦
          let e' : some later ≡ some b = rw found at e in
          let e'' : later ≡ b = cc in
          subst IsInRange e''
            (find_binding-IsInRange (x.channel_id ∷ seen) id xs later first.1 found)
    ]

limits_valid-bindings :
    (env : Environment) (s : PolicySettings) (bs : List ChannelBinding)
    → limits_valid env.parse env.origins env.one s bs ≡ true
    → (bindings_valid [] bs ≡ true) × (1 ≤ pos_part s.max_attempts) × (pos_part s.max_attempts ≤ 5)
unfolding limits_valid
limits_valid-bindings env s bs h =
    let attempts = within_bounds 1 5 s.max_attempts (ground arith) in
    (ground arith, attempts.0, attempts.1)

pub validate_settings-bindings :
    (env : Environment) (s : PolicySettings)
    → validate_settings env.parse env.origins env.one s ≡ true
    → (bindings_valid [] (bindings s) ≡ true)
      × (1 ≤ pos_part s.max_attempts)
      × (pos_part s.max_attempts ≤ 5)
unfolding validate_settings typesafe_question
validate_settings-bindings env s h = elim (Option-cases s.channels) [
  | inl nothing ↦
      let no : false ≡ true = (&&-eq_true (texts_valid s) false (rw nothing at h)).1 in cc
  | inr (bs, some_bs) ↦
      let limits = limits_valid env.parse env.origins env.one s bs in
      let valid : limits ≡ true = (&&-eq_true (texts_valid s) limits (rw some_bs at h)).1 in
      rw some_bs (limits_valid-bindings env s bs valid)
]
