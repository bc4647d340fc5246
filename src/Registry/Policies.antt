-- ===== src/Registry/Policies.antt =====
-- Policies: validateBindings (internal/audit/channels.go), CreatePolicy, SaveConfig, SetPolicyState
-- (store.go), ArchivePolicy, DeletePolicy and the import (policy_lifecycle.go).
use deepseek_moderation_api.Prelude.{
  ℕ, ◌+◌, Bool, true, false, not, ◌&&◌, ◌||◌, List, [], ◌∷◌, Option, none, some, String, str_eq,
  ltb, leb, ◌==◌, if◌then◌else◌, any, all, length, internal, Result, ok, err, problem, ◌>>=◌, ◌>>◌,
  refuse_if,
}
use deepseek_moderation_api.Prelude.Int.{pos}
use deepseek_moderation_api.Text.{codes, utf8_length}
use deepseek_moderation_api.Keywords.{is_blank}
use deepseek_moderation_api.Policy.Config.{within}
use deepseek_moderation_api.Policy.Settings.{
  ChannelBinding, PolicySettings, bindings, validate_settings,
}
use deepseek_moderation_api.Policy.Candidates.{Environment}
use deepseek_moderation_api.Registry.Tables.{
  CredentialRow, ChannelRow, PolicyRow, KeyRow, Registry, not_found, revision_conflict, has_row,
  find_row, update_row, remove_row, insert_row,
}

abbrev pub is_active : Option CredentialRow → Bool
is_active none = false
is_active (some k) = k.active

abbrev pub is_live : Registry → Option ChannelRow → Bool
is_live g none = false
is_live g (some c) = c.enabled && is_active (find_row (λ k. k.id) c.credential_id g.credentials)

-- A channel is found through the join with its credential.
abbrev pub is_found : Registry → Option ChannelRow → Bool
is_found g none = false
is_found g (some c) = has_row (λ k. k.id) c.credential_id g.credentials

abbrev pub bound_channel : Registry → ChannelBinding → Option ChannelRow
bound_channel g b = find_row (λ c. c.id) b.channel_id g.channels

-- The settings of a file, with the time that model outputs are kept for.
unfoldable pub with_retention : PolicySettings → PolicySettings
with_retention s = record s {
  model_output_retention_days =
      if within 0 0 s.model_output_retention_days then pos 7 else s.model_output_retention_days;
}

abbrev pub edit_policy : (name : List ℕ) → PolicySettings → PolicyRow → PolicyRow
edit_policy name s p = record p { name = name; config = s; revision = p.revision + 1 }

abbrev pub set_enabled : Bool → PolicyRow → PolicyRow
set_enabled enabled p = record p { enabled = enabled; revision = p.revision + 1 }

abbrev pub set_archived : Bool → PolicyRow → PolicyRow
set_archived archived p = record p {
  archived = archived;
  enabled = false;
  revision = p.revision + 1;
}

module _ (env : Environment) where
  unfoldable pub validate_bindings :
      Registry → PolicySettings → (required : Bool) → Result (Unit {0})
  validate_bindings g s required = do
    refuse_if (not (validate_settings env.parse env.origins env.one s))
        (problem 400 "invalid_config")
    refuse_if (not (all (λ b. is_found g (bound_channel g b)) (bindings s)))
        (problem 400 "invalid_channel")
    refuse_if (required && not (any (λ b. b.enabled && is_live g (bound_channel g b)) (bindings s)))
        (problem 400 "channel_required")

  abbrev pub new_policy : String → (name : List ℕ) → (alias : String) → PolicySettings → PolicyRow
  new_policy id name alias s = record {
    id = id;
    name = name;
    alias = alias;
    enabled = false;
    archived = false;
    revision = 1;
    config = s;
  }

  -- `CreatePolicy`, with the settings that it copies; the alias is unique too.
  unfoldable pub create_policy :
      String → (name : List ℕ) → (alias : String) → PolicySettings → Registry → Result Registry
  create_policy id name alias s g = do
    validate_bindings g s false
    refuse_if (any (λ p. str_eq p.alias alias) g.policies) (problem 409 "alias_exists")
    rows ← insert_row (λ p. p.id) (new_policy id name alias s) g.policies
    ok (record g { policies = rows })

  abbrev pub is_alias_char : ℕ → Bool
  is_alias_char c = leb b'a' c && leb c b'z' || leb b'A' c && leb c b'Z' || leb b'0' c && leb c b'9'

  -- `policyAliasPattern`.
  unfoldable pub is_alias : List ℕ → Bool
  is_alias [] = false
  is_alias (c ∷ cs) =
      is_alias_char c
      && leb (length cs) 79
      && all (λ x. is_alias_char x || x == b'.' || x == b'_' || x == b'-') cs

  unfoldable pub import_policy :
      String
      → (version : ℕ) → (name : List ℕ) → (alias : String) → PolicySettings
      → Registry
      → Result Registry
  unfolding create_policy is_alias
  import_policy id version name alias s g = do
    refuse_if
        (not (version == 1)
          || is_blank name
          || ltb 200 (utf8_length name)
          || not (is_alias (codes alias)))
        (problem 400 "invalid_policy")
    refuse_if (not (validate_settings env.parse env.origins env.one (with_retention s)))
        (problem 400 "invalid_config")
    create_policy id name alias (with_retention s) g

  unfoldable pub save_found :
      String
      → (name : List ℕ) → (revision : ℕ) → PolicySettings
      → Option PolicyRow
      → Registry
      → Result Registry
  save_found id name revision s none g = err internal
  save_found id name revision s (some p) g = do
    refuse_if p.archived (problem 409 "policy_archived")
    validate_bindings g s p.enabled
    refuse_if (not (p.revision == revision)) revision_conflict
    ok (record g { policies = update_row (λ p. p.id) id (edit_policy name s) g.policies })

  unfoldable pub save_config :
      String → (name : List ℕ) → (revision : ℕ) → PolicySettings → Registry → Result Registry
  unfolding save_found
  save_config id name revision s g = do
    refuse_if (not (validate_settings env.parse env.origins env.one s))
        (problem 400 "invalid_config")
    save_found id name revision s (find_row (λ p. p.id) id g.policies) g

  abbrev pub check_enable : Registry → PolicyRow → (enabled : Bool) → Result (Unit {0})
  check_enable g p enabled = if enabled then validate_bindings g p.config true else ok tt

  unfoldable pub state_found :
      String → (revision : ℕ) → (enabled : Bool) → Option PolicyRow → Registry → Result Registry
  state_found id revision enabled none g = err not_found
  state_found id revision enabled (some p) g = do
    refuse_if (not (p.revision == revision)) revision_conflict
    refuse_if p.archived (problem 409 "policy_archived")
    check_enable g p enabled
    ok (record g { policies = update_row (λ p. p.id) id (set_enabled enabled) g.policies })

  unfoldable pub set_policy_state :
      String → (revision : ℕ) → (enabled : Bool) → Registry → Result Registry
  unfolding state_found
  set_policy_state id revision enabled g =
      state_found id revision enabled (find_row (λ p. p.id) id g.policies) g

abbrev pub same_flag : Bool → Bool → Bool
same_flag a b = if a then b else not b

unfoldable pub archive_found :
    String
    → (revision : ℕ) → (archived running : Bool) → Option PolicyRow
    → Registry
    → Result Registry
archive_found id revision archived running none g = err not_found
archive_found id revision archived running (some p) g = do
  refuse_if (not (p.revision == revision)) revision_conflict
  refuse_if (same_flag p.archived archived) (problem 409 "policy_state_unchanged")
  refuse_if running (problem 409 "policy_in_evaluation")
  ok (record g { policies = update_row (λ p. p.id) id (set_archived archived) g.policies })

-- `running` says whether an evaluation of the policy is queued or running.
unfoldable pub archive_policy :
    String → (revision : ℕ) → (archived running : Bool) → Registry → Result Registry
unfolding archive_found
archive_policy id revision archived running g =
    archive_found id revision archived running (find_row (λ p. p.id) id g.policies) g

abbrev pub grants : String → KeyRow → Bool
grants id k = not k.deleted && any (λ p. str_eq p id) k.policy_ids

unfoldable pub delete_found :
    String → (running : Bool) → Option PolicyRow → Registry → Result Registry
delete_found id running none g = err not_found
delete_found id running (some p) g = do
  refuse_if (not p.archived) (problem 409 "policy_not_archived")
  refuse_if (any (grants id) g.keys || running) (problem 409 "policy_in_use")
  ok (record g { policies = remove_row (λ p. p.id) id g.policies })

unfoldable pub delete_policy : String → (running : Bool) → Registry → Result Registry
unfolding delete_found
delete_policy id running g = delete_found id running (find_row (λ p. p.id) id g.policies) g
