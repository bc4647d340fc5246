-- ===== src/Registry/Commands.antt =====
-- The administrators' commands as data, each with its transaction: the handlers of
-- internal/audit/server.go that write the tables through `Store.mutate`.
use deepseek_moderation_api.Prelude.{ℕ, Bool, List, [], ◌∷◌, Option, String, Result}
use deepseek_moderation_api.Prelude.Int.{ℤ}
use deepseek_moderation_api.Policy.Settings.{PolicySettings}
use deepseek_moderation_api.Policy.Candidates.{Environment}
use deepseek_moderation_api.Registry.Tables.{ChannelRow, Registry, mutate}
use deepseek_moderation_api.Registry.Connections.{
  CredentialForm, create_credential, save_credential, delete_credential, create_channel,
  save_channel, delete_channel, clear_channel_cache,
}
use deepseek_moderation_api.Registry.Policies.{
  create_policy, import_policy, save_config, set_policy_state, archive_policy, delete_policy,
}
use deepseek_moderation_api.Registry.Keys.{
  KeyForm, create_key, update_key, rotate_key, revoke_key, delete_key,
}

pub data Command : Type 0 where
  credential_create : (id : String) → CredentialForm → Command
  credential_update : (id : String) → CredentialForm → (epoch : String) → Command
  credential_delete : (id : String) → Command
  channel_create : ChannelRow → Command
  channel_save : ChannelRow → Command
  channel_delete : (id : String) → Command
  channel_cache_clear : (id epoch : String) → Command
  policy_create : (id : String) (name : List ℕ) (alias : String) → PolicySettings → Command
  policy_import :
      (id : String) (version : ℕ) (name : List ℕ) (alias : String) → PolicySettings → Command
  policy_save : (id : String) (name : List ℕ) (revision : ℕ) → PolicySettings → Command
  policy_state : (id : String) (revision : ℕ) (enabled : Bool) → Command
  policy_archive : (id : String) (revision : ℕ) (archived running : Bool) → Command
  policy_delete : (id : String) (running : Bool) → Command
  key_create :
      (id token_hash : String) (now : ℕ) (name : List ℕ) (policy_ids : List String) (rpm : ℤ)
      (expires_at : Option ℕ)
      → Command
  key_update : (id : String) (revision : ℕ) → KeyForm → Command
  key_rotate : (id : String) (revision : ℕ) (token_hash : String) → Command
  key_revoke : (id : String) → Command
  key_delete : (id token_hash : String) → Command

-- The action that is logged.
abbrev pub action_of : Command → String
action_of (credential_create id f) = "credential.update"
action_of (credential_update id f epoch) = "credential.update"
action_of (credential_delete id) = "credential.delete"
action_of (channel_create c) = "channel.save"
action_of (channel_save c) = "channel.save"
action_of (channel_delete id) = "channel.delete"
action_of (channel_cache_clear id epoch) = "channel.cache_clear"
action_of (policy_create id name alias s) = "policy.create"
action_of (policy_import id version name alias s) = "policy.import"
action_of (policy_save id name revision s) = "policy.save"
action_of (policy_state id revision enabled) = "policy.state"
action_of (policy_archive id revision archived running) = "policy.archive"
action_of (policy_delete id running) = "policy.delete"
action_of (key_create id hash now name ids rpm expires_at) = "key.create"
action_of (key_update id revision f) = "key.update"
action_of (key_rotate id revision hash) = "key.rotate"
action_of (key_revoke id) = "key.revoke"
action_of (key_delete id hash) = "key.delete"

module _ (env : Environment) (defaults : PolicySettings) where
  unfoldable pub transaction : Command → Registry → Result Registry
  transaction (credential_create id f) = create_credential env id f
  transaction (credential_update id f epoch) = save_credential env id f epoch
  transaction (credential_delete id) = delete_credential id
  transaction (channel_create c) = create_channel env defaults c
  transaction (channel_save c) = save_channel env defaults c
  transaction (channel_delete id) = delete_channel id
  transaction (channel_cache_clear id epoch) = clear_channel_cache id epoch
  transaction (policy_create id name alias s) = create_policy env id name alias s
  transaction (policy_import id version name alias s) = import_policy env id version name alias s
  transaction (policy_save id name revision s) = save_config env id name revision s
  transaction (policy_state id revision enabled) = set_policy_state env id revision enabled
  transaction (policy_archive id revision archived running) =
      archive_policy id revision archived running
  transaction (policy_delete id running) = delete_policy id running
  transaction (key_create id hash now name ids rpm expires_at) =
      create_key id hash now name ids rpm expires_at
  transaction (key_update id revision f) = update_key id revision f
  transaction (key_rotate id revision hash) = rotate_key id revision hash
  transaction (key_revoke id) = revoke_key id
  transaction (key_delete id hash) = delete_key id hash

  -- What the database answers to the commit comes with the command.
  abbrev pub run_command : Result (Unit {0}) → Command → Registry → Registry × Result (Unit {0})
  run_command commit c g = mutate commit (action_of c) (transaction c) g

  unfoldable pub run_commands : List (Command × Result (Unit {0})) → Registry → Registry
  run_commands [] g = g
  run_commands ((c, commit) ∷ cs) g = run_commands cs (run_command commit c g).0
