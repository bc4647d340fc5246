-- ===== src/Registry/OtherTables.antt =====
-- The operations that leave the table of keys as it is (internal/audit/store.go, channels.go,
-- credentials.go, policy_lifecycle.go).
use deepseek_moderation_api.Prelude.{
  ℕ, Bool, false, not, ◌||◌, List, Option, none, some, String, str_eq, any, ltb, ◌==◌, Result,
  problem, Ensures, >>=-Ensures, refuse_if-Ensures,
}
use deepseek_moderation_api.Text.{codes, utf8_length}
use deepseek_moderation_api.Keywords.{is_blank}
use deepseek_moderation_api.Policy.Provider.{is_empty}
use deepseek_moderation_api.Policy.Settings.{PolicySettings, validate_settings}
use deepseek_moderation_api.Policy.Candidates.{Environment}
use deepseek_moderation_api.Registry.Tables.{
  CredentialRow, ChannelRow, PolicyRow, KeyRow, Registry, has_row, find_row, insert_row, not_found,
  revision_conflict,
}
use deepseek_moderation_api.Registry.Connections.{
  CredentialForm, form_provider, new_credential, check_credential, create_credential,
  found_credential, save_credential, delete_credential, check_channel, check_connection,
  new_channel, create_channel, at_revision, save_channel, binds, delete_channel,
  clear_channel_cache,
}
use deepseek_moderation_api.Registry.Policies.{
  with_retention, validate_bindings, new_policy, create_policy, is_alias, import_policy, save_found,
  save_config, check_enable, state_found, set_policy_state, same_flag, archive_found,
  archive_policy, grants, delete_found, delete_policy,
}

module _ (Q : List KeyRow → Type 0) where
  -- If the operation succeeds, this holds of the keys.
  abbrev pub Leaves : Result Registry → Type 0
  Leaves after = Ensures (λ (g : Registry). Q g.keys) after

  abbrev OfKeys : Registry → Type 0
  OfKeys g = Q g.keys

  module _ (env : Environment) where
    pub create_credential-Leaves :
        (id : String) (f : CredentialForm) (g : Registry)
        → Q g.keys
        → Leaves (create_credential env id f g)
    unfolding create_credential
    create_credential-Leaves id f g q = >>=-Ensures OfKeys (check_credential env f) _ (λ u e.
        refuse_if-Ensures OfKeys (is_empty f.key) (problem 400 "key_required") _ (λ k.
          >>=-Ensures OfKeys (insert_row (λ r. r.id) (new_credential env id f) g.credentials) _
            (λ rows i. q)))

    found_credential-Leaves :
        (id : String) (f : CredentialForm) (epoch : String) (r : Option CredentialRow)
        (g : Registry)
        → Q g.keys
        → Leaves (found_credential env id f epoch r g)
    unfolding found_credential
    found_credential-Leaves id f epoch none g q = tt
    found_credential-Leaves id f epoch (some r) g q =
        refuse_if-Ensures OfKeys (not (str_eq r.provider (form_provider f)))
          (problem 400 "credential_binding_immutable") _ (λ same. q)

    pub save_credential-Leaves :
        (id : String) (f : CredentialForm) (epoch : String) (g : Registry)
        → Q g.keys
        → Leaves (save_credential env id f epoch g)
    unfolding save_credential
    save_credential-Leaves id f epoch g q =
        >>=-Ensures OfKeys (check_credential env f) _
          (λ u e. found_credential-Leaves id f epoch (find_row (λ c. c.id) id g.credentials) g q)

    pub create_channel-Leaves :
        (defaults : PolicySettings) (c : ChannelRow) (g : Registry)
        → Q g.keys
        → Leaves (create_channel env defaults c g)
    unfolding create_channel
    create_channel-Leaves defaults c g q = >>=-Ensures OfKeys (check_channel c) _ (λ u e.
        >>=-Ensures OfKeys
          (check_connection env defaults c (find_row (λ k. k.id) c.credential_id g.credentials)) _
          (λ text_only checked.
            >>=-Ensures OfKeys (insert_row (λ r. r.id) (new_channel text_only c) g.channels) _
              (λ rows i. q)))

    pub save_channel-Leaves :
        (defaults : PolicySettings) (c : ChannelRow) (g : Registry)
        → Q g.keys
        → Leaves (save_channel env defaults c g)
    unfolding save_channel
    save_channel-Leaves defaults c g q = >>=-Ensures OfKeys (check_channel c) _ (λ u e.
        >>=-Ensures OfKeys
          (check_connection env defaults c (find_row (λ k. k.id) c.credential_id g.credentials)) _
          (λ text_only checked.
            refuse_if-Ensures OfKeys
              (not (at_revision c.revision (find_row (λ r. r.id) c.id g.channels)))
              revision_conflict _ (λ current. q)))

    pub create_policy-Leaves :
        (id : String) (name : List ℕ) (alias : String) (s : PolicySettings) (g : Registry)
        → Q g.keys
        → Leaves (create_policy env id name alias s g)
    unfolding create_policy
    create_policy-Leaves id name alias s g q =
        >>=-Ensures OfKeys (validate_bindings env g s false) _ (λ u checked.
          refuse_if-Ensures OfKeys (any (λ p. str_eq p.alias alias) g.policies)
            (problem 409 "alias_exists") _
            (λ free.
              >>=-Ensures OfKeys
                (insert_row (λ p. p.id) (new_policy env id name alias s) g.policies) _
                (λ rows i. q)))

    pub import_policy-Leaves :
        (id : String) (version : ℕ) (name : List ℕ) (alias : String) (s : PolicySettings)
        (g : Registry)
        → Q g.keys
        → Leaves (import_policy env id version name alias s g)
    unfolding import_policy
    import_policy-Leaves id version name alias s g q =
        refuse_if-Ensures OfKeys
          (not (version == 1)
            || is_blank name
            || ltb 200 (utf8_length name)
            || not (is_alias env (codes alias)))
          (problem 400 "invalid_policy") _
          (λ v.
            refuse_if-Ensures OfKeys
              (not (validate_settings env.parse env.origins env.one (with_retention s)))
              (problem 400 "invalid_config") _
              (λ w. create_policy-Leaves id name alias (with_retention s) g q))

    save_found-Leaves :
        (id : String) (name : List ℕ) (revision : ℕ) (s : PolicySettings) (p : Option PolicyRow)
        (g : Registry)
        → Q g.keys
        → Leaves (save_found env id name revision s p g)
    unfolding save_found
    save_found-Leaves id name revision s none g q = tt
    save_found-Leaves id name revision s (some p) g q =
        refuse_if-Ensures OfKeys p.archived (problem 409 "policy_archived") _ (λ live.
          >>=-Ensures OfKeys (validate_bindings env g s p.enabled) _ (λ u checked.
            refuse_if-Ensures OfKeys (not (p.revision == revision)) revision_conflict _
              (λ current. q)))

    pub save_config-Leaves :
        (id : String) (name : List ℕ) (revision : ℕ) (s : PolicySettings) (g : Registry)
        → Q g.keys
        → Leaves (save_config env id name revision s g)
    unfolding save_config
    save_config-Leaves id name revision s g q =
        refuse_if-Ensures OfKeys (not (validate_settings env.parse env.origins env.one s))
          (problem 400 "invalid_config") _
          (λ v. save_found-Leaves id name revision s (find_row (λ p. p.id) id g.policies) g q)

    state_found-Leaves :
        (id : String) (revision : ℕ) (enabled : Bool) (p : Option PolicyRow) (g : Registry)
        → Q g.keys
        → Leaves (state_found env id revision enabled p g)
    unfolding state_found
    state_found-Leaves id revision enabled none g q = tt
    state_found-Leaves id revision enabled (some p) g q =
        refuse_if-Ensures OfKeys (not (p.revision == revision)) revision_conflict _ (λ current.
          refuse_if-Ensures OfKeys p.archived (problem 409 "policy_archived") _
            (λ live. >>=-Ensures OfKeys (check_enable env g p enabled) _ (λ u checked. q)))

    pub set_policy_state-Leaves :
        (id : String) (revision : ℕ) (enabled : Bool) (g : Registry)
        → Q g.keys
        → Leaves (set_policy_state env id revision enabled g)
    unfolding set_policy_state
    set_policy_state-Leaves id revision enabled g q =
        state_found-Leaves id revision enabled (find_row (λ p. p.id) id g.policies) g q

  pub delete_credential-Leaves :
      (id : String) (g : Registry) → Q g.keys → Leaves (delete_credential id g)
  unfolding delete_credential
  delete_credential-Leaves id g q =
      refuse_if-Ensures OfKeys (not (has_row (λ c. c.id) id g.credentials)) not_found _ (λ there.
        refuse_if-Ensures OfKeys (any (λ c. str_eq c.credential_id id) g.channels)
          (problem 409 "credential_in_use") _ (λ unused. q))

  pub delete_channel-Leaves : (id : String) (g : Registry) → Q g.keys → Leaves (delete_channel id g)
  unfolding delete_channel
  delete_channel-Leaves id g q =
      refuse_if-Ensures OfKeys (not (has_row (λ c. c.id) id g.channels)) not_found _ (λ there.
        refuse_if-Ensures OfKeys (any (binds id) g.policies) (problem 409 "channel_in_use") _
          (λ unused. q))

  pub clear_channel_cache-Leaves :
      (id epoch : String) (g : Registry) → Q g.keys → Leaves (clear_channel_cache id epoch g)
  unfolding clear_channel_cache
  clear_channel_cache-Leaves id epoch g q =
      refuse_if-Ensures OfKeys (not (has_row (λ c. c.id) id g.channels)) not_found _ (λ there. q)

  archive_found-Leaves :
      (id : String) (revision : ℕ) (archived running : Bool) (p : Option PolicyRow) (g : Registry)
      → Q g.keys
      → Leaves (archive_found id revision archived running p g)
  unfolding archive_found
  archive_found-Leaves id revision archived running none g q = tt
  archive_found-Leaves id revision archived running (some p) g q =
      refuse_if-Ensures OfKeys (not (p.revision == revision)) revision_conflict _ (λ current.
        refuse_if-Ensures OfKeys (same_flag p.archived archived)
          (problem 409 "policy_state_unchanged") _
          (λ other.
            refuse_if-Ensures OfKeys running (problem 409 "policy_in_evaluation") _ (λ free. q)))

  pub archive_policy-Leaves :
      (id : String) (revision : ℕ) (archived running : Bool) (g : Registry)
      → Q g.keys
      → Leaves (archive_policy id revision archived running g)
  unfolding archive_policy
  archive_policy-Leaves id revision archived running g q =
      archive_found-Leaves id revision archived running (find_row (λ p. p.id) id g.policies) g q

  delete_found-Leaves :
      (id : String) (running : Bool) (p : Option PolicyRow) (g : Registry)
      → Q g.keys
      → Leaves (delete_found id running p g)
  unfolding delete_found
  delete_found-Leaves id running none g q = tt
  delete_found-Leaves id running (some p) g q =
      refuse_if-Ensures OfKeys (not p.archived) (problem 409 "policy_not_archived") _ (λ a.
        refuse_if-Ensures OfKeys (any (grants id) g.keys || running) (problem 409 "policy_in_use") _
          (λ unused. q))

  pub delete_policy-Leaves :
      (id : String) (running : Bool) (g : Registry) → Q g.keys → Leaves (delete_policy id running g)
  unfolding delete_policy
  delete_policy-Leaves id running g q =
      delete_found-Leaves id running (find_row (λ p. p.id) id g.policies) g q
