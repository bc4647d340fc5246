-- ===== src/Registry/Edits.antt =====
-- Two administrators who edit the same row (internal/audit/store.go, channels.go, key_lifecycle.go,
-- policy_lifecycle.go).
use deepseek_moderation_api.Prelude.{
  ℕ, ◌+◌, ◌≡◌, refl, sym, ◌∙◌, not, List, ◌∷◌, Option, none, some, String, arith, Failure, Result,
  ok, err, problem, Ensures, refuse_if-Ensures,
}
use mathlib.Core.Path.{subst}
use deepseek_moderation_api.Policy.Settings.{PolicySettings, validate_settings}
use deepseek_moderation_api.Policy.Candidates.{Environment}
use deepseek_moderation_api.Registry.Tables.{Registry, find_row, finish_transaction, mutate}
use deepseek_moderation_api.Registry.Policies.{save_config, set_policy_state, archive_policy}
use deepseek_moderation_api.Registry.Keys.{live_key, form_valid, update_key, rotate_key}
use deepseek_moderation_api.Registry.Commands.{
  Command, credential_create, credential_update, credential_delete, channel_create, channel_save,
  channel_delete, channel_cache_clear, policy_create, policy_import, policy_save, policy_state,
  policy_archive, policy_delete, key_create, key_update, key_rotate, key_revoke, key_delete,
  action_of, transaction, run_command,
}
use deepseek_moderation_api.Registry.Locks.{
  Target, channel_row, policy_row, key_row, revision_at, edit_of, IsAdvanced, save_found-IsAdvanced,
  state_found-IsAdvanced, archive_found-IsAdvanced, update_found-IsAdvanced,
  rotate_found-IsAdvanced, save_channel-IsAdvanced,
}

-- What an edit ensures if it succeeds.
abbrev pub Advances : Option (Target × ℕ) → Registry → Result Registry → Type 0
Advances none g after = Unit {0}
Advances (some (t, n)) g after = Ensures (IsAdvanced t n g) after

module _ (env : Environment) (defaults : PolicySettings) where
  transaction-Advances :
      (c : Command) (g : Registry) → Advances (edit_of c) g (transaction env defaults c g)
  unfolding transaction save_config set_policy_state archive_policy update_key rotate_key
  transaction-Advances (credential_create id f) g = tt
  transaction-Advances (credential_update id f epoch) g = tt
  transaction-Advances (credential_delete id) g = tt
  transaction-Advances (channel_create c) g = tt
  transaction-Advances (channel_save c) g = save_channel-IsAdvanced env defaults c g
  transaction-Advances (channel_delete id) g = tt
  transaction-Advances (channel_cache_clear id epoch) g = tt
  transaction-Advances (policy_create id name alias s) g = tt
  transaction-Advances (policy_import id version name alias s) g = tt
  transaction-Advances (policy_save id name revision s) g =
      refuse_if-Ensures (IsAdvanced (policy_row id) revision g)
        (not (validate_settings env.parse env.origins env.one s)) (problem 400 "invalid_config") _
        (λ v.
          save_found-IsAdvanced env id name revision s (find_row (λ p. p.id) id g.policies) g refl)
  transaction-Advances (policy_state id revision enabled) g =
      state_found-IsAdvanced env id revision enabled (find_row (λ p. p.id) id g.policies) g refl
  transaction-Advances (policy_archive id revision archived running) g =
      archive_found-IsAdvanced id revision archived running (find_row (λ p. p.id) id g.policies) g
        refl
  transaction-Advances (policy_delete id running) g = tt
  transaction-Advances (key_create id hash now name ids rpm expires_at) g = tt
  transaction-Advances (key_update id revision f) g =
      refuse_if-Ensures (IsAdvanced (key_row id) revision g) (not (form_valid f))
        (problem 400 "invalid_key_config") _
        (λ v. update_found-IsAdvanced id revision f (live_key id g) g refl)
  transaction-Advances (key_rotate id revision hash) g =
      rotate_found-IsAdvanced id revision hash (live_key id g) g refl
  transaction-Advances (key_revoke id) g = tt
  transaction-Advances (key_delete id hash) g = tt

  edit-IsAdvanced :
      (c : Command) (t : Target) (n : ℕ) (g : Registry)
      → edit_of c ≡ some (t, n)
      → Ensures (IsAdvanced t n g) (transaction env defaults c g)
  edit-IsAdvanced c t n g e =
      subst (λ x. Advances x g (transaction env defaults c g)) e (transaction-Advances c g)

  logged :
      (t : Target) (g : Registry) (actions : List String)
      → revision_at t (record g { actions = actions }) ≡ revision_at t g
  logged (channel_row id) g actions = refl
  logged (policy_row id) g actions = refl
  logged (key_row id) g actions = refl

  succeeded :
      (t : Target) (n : ℕ) (commit : Result (Unit {0})) (action : String) (g : Registry)
      (after : Result Registry)
      → Ensures (IsAdvanced t n g) after
      → (finish_transaction commit action g after).1 ≡ ok tt
      → revision_at t (finish_transaction commit action g after).0 ≡ some (n + 1)
  unfolding finish_transaction
  succeeded t n commit action g (err e) a s = cc
  succeeded t n (err e) action g (ok g') a s = cc
  succeeded t n (ok u) action g (ok g') a s = logged t g' (action ∷ g'.actions) ∙ a.1

  refused :
      (t : Target) (n : ℕ) (commit : Result (Unit {0})) (action : String) (g : Registry)
      (after : Result Registry)
      → Ensures (IsAdvanced t n g) after
      → revision_at t g ≡ some (n + 1)
      → (e : Failure) × (finish_transaction commit action g after ≡ (g, err e))
  unfolding finish_transaction
  refused t n commit action g (err e) a r = (e, refl)
  refused t n commit action g (ok g') a r =
      let clash : some n ≡ some (n + 1) = sym a.0 ∙ r in
      let clash' : n ≡ n + 1 = cc in absurd (ground arith)

  -- Where a first edit of a channel, a policy or a key succeeds, made against a revision of its
  -- row: the row has the next revision. A second edit of the row against the same revision, of
  -- whatever kind, is then refused and leaves all tables as they are.
  pub second_edit-refused :
      (c c' : Command) (t : Target) (n : ℕ) (commit commit' : Result (Unit {0})) (g : Registry)
      → edit_of c ≡ some (t, n)
      → edit_of c' ≡ some (t, n)
      → (run_command env defaults commit c g).1 ≡ ok tt
      → (let g' = (run_command env defaults commit c g).0 in
          (revision_at t g' ≡ some (n + 1))
          × ((e : Failure) × (run_command env defaults commit' c' g' ≡ (g', err e))))
  unfolding mutate
  second_edit-refused c c' t n commit commit' g e e' s =
      let g' = (run_command env defaults commit c g).0 in
      let next =
        succeeded t n commit (action_of c) g (transaction env defaults c g)
          (edit-IsAdvanced c t n g e) s in
      (
        next,
        refused t n commit' (action_of c') g' (transaction env defaults c' g')
            (edit-IsAdvanced c' t n g' e') next,
      )
