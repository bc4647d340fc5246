-- ===== src/Registry/References.antt =====
-- The references between the tables, whatever administrators do (internal/audit/store.go).
use deepseek_moderation_api.Prelude.{List, [], ◌∷◌, String, Result, ok, err, Ensures}
use deepseek_moderation_api.Policy.Settings.{PolicySettings}
use deepseek_moderation_api.Policy.Candidates.{Environment}
use deepseek_moderation_api.Registry.Tables.{Registry, finish_transaction, mutate}
use deepseek_moderation_api.Registry.Commands.{
  Command, credential_create, credential_update, credential_delete, channel_create, channel_save,
  channel_delete, channel_cache_clear, policy_create, policy_import, policy_save, policy_state,
  policy_archive, policy_delete, key_create, key_update, key_rotate, key_revoke, key_delete,
  action_of, transaction, run_commands,
}
use deepseek_moderation_api.Registry.Consistent.{IsConsistent}
use deepseek_moderation_api.Registry.Consistent.Credentials.{
  create_credential-IsConsistent, save_credential-IsConsistent, delete_credential-IsConsistent,
}
use deepseek_moderation_api.Registry.Consistent.Channels.{
  create_channel-IsConsistent, save_channel-IsConsistent, delete_channel-IsConsistent,
  clear_channel_cache-IsConsistent,
}
use deepseek_moderation_api.Registry.Consistent.Policies.{
  create_policy-IsConsistent, import_policy-IsConsistent, save_config-IsConsistent,
  set_policy_state-IsConsistent, archive_policy-IsConsistent, delete_policy-IsConsistent,
}
use deepseek_moderation_api.Registry.Consistent.Keys.{
  create_key-IsConsistent, update_key-IsConsistent, rotate_key-IsConsistent,
  revoke_key-IsConsistent, delete_key-IsConsistent,
}

finish_transaction-IsConsistent :
    (commit : Result (Unit {0})) (action : String) (g : Registry) (after : Result Registry)
    → IsConsistent g
    → Ensures IsConsistent after
    → IsConsistent (finish_transaction commit action g after).0
unfolding finish_transaction
finish_transaction-IsConsistent commit action g (err e) h s = h
finish_transaction-IsConsistent (err e) action g (ok g') h s = h
finish_transaction-IsConsistent (ok u) action g (ok g') h s = record {
  bound = s.bound;
  keyed = s.keyed;
  idle = s.idle;
  connected = s.connected;
  granted = s.granted;
}

module _ (env : Environment) (defaults : PolicySettings) where
  transaction-IsConsistent :
      (c : Command) (g : Registry)
      → IsConsistent g
      → Ensures IsConsistent (transaction env defaults c g)
  unfolding transaction
  transaction-IsConsistent (credential_create id f) = create_credential-IsConsistent env id f
  transaction-IsConsistent (credential_update id f epoch) =
      save_credential-IsConsistent env id f epoch
  transaction-IsConsistent (credential_delete id) = delete_credential-IsConsistent id
  transaction-IsConsistent (channel_create c) = create_channel-IsConsistent env defaults c
  transaction-IsConsistent (channel_save c) = save_channel-IsConsistent env defaults c
  transaction-IsConsistent (channel_delete id) = delete_channel-IsConsistent id
  transaction-IsConsistent (channel_cache_clear id epoch) =
      clear_channel_cache-IsConsistent id epoch
  transaction-IsConsistent (policy_create id name alias s) =
      create_policy-IsConsistent env id name alias s
  transaction-IsConsistent (policy_import id version name alias s) =
      import_policy-IsConsistent env id version name alias s
  transaction-IsConsistent (policy_save id name revision s) =
      save_config-IsConsistent env id name revision s
  transaction-IsConsistent (policy_state id revision enabled) =
      set_policy_state-IsConsistent env id revision enabled
  transaction-IsConsistent (policy_archive id revision archived running) =
      archive_policy-IsConsistent id revision archived running
  transaction-IsConsistent (policy_delete id running) = delete_policy-IsConsistent id running
  transaction-IsConsistent (key_create id hash now name ids rpm expires_at) =
      create_key-IsConsistent id hash now name ids rpm expires_at
  transaction-IsConsistent (key_update id revision f) = update_key-IsConsistent id revision f
  transaction-IsConsistent (key_rotate id revision hash) = rotate_key-IsConsistent id revision hash
  transaction-IsConsistent (key_revoke id) = revoke_key-IsConsistent id
  transaction-IsConsistent (key_delete id hash) = delete_key-IsConsistent id hash

  -- Whatever commands administrators give, and whichever of them fail, at a check or at the commit:
  -- if the references hold at the start, they hold at the end. That is: each channel has a
  -- credential, each policy binds only channels that exist, each key that is not deleted is granted
  -- only policies that exist, no archived policy is enabled, and the ids of policies are distinct.
  pub run_commands-IsConsistent :
      (cs : List (Command × Result (Unit {0}))) (g : Registry)
      → IsConsistent g
      → IsConsistent (run_commands env defaults cs g)
  unfolding run_commands mutate
  run_commands-IsConsistent [] g h = h
  run_commands-IsConsistent ((c, commit) ∷ cs) g h = run_commands-IsConsistent cs _ (
      finish_transaction-IsConsistent commit (action_of c) g (transaction env defaults c g) h
        (transaction-IsConsistent c g h))
