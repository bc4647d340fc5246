-- ===== src/Examples/Registry.antt =====
-- One credential, two channels, two policies and one key: internal/audit/store.go and the files
-- beside it.
use deepseek_moderation_api.Prelude.{
  ◌≡◌, refl, true, false, List, [], ◌∷◌, none, some, String, Failure, internal, Result, ok, err,
  problem,
}
use deepseek_moderation_api.Prelude.Int.{pos}
use deepseek_moderation_api.Text.{codes}
use deepseek_moderation_api.Registry.Tables.{
  ChannelRow, PolicyRow, KeyRow, Registry, find_row, update_row, remove_row, finish_transaction,
  mutate,
}
use deepseek_moderation_api.Registry.Connections.{delete_channel}
use deepseek_moderation_api.Registry.Policies.{
  archive_found, archive_policy, delete_found, delete_policy,
}
use deepseek_moderation_api.Registry.Keys.{
  rotate_found, rotate_key, revoke_found, revoke_key, find_token, authenticate_key,
}
use deepseek_moderation_api.Registry.Commands.{
  Command, channel_delete, policy_state, policy_archive, policy_delete, key_rotate, key_revoke,
  transaction, run_command, run_commands,
}
use deepseek_moderation_api.Registry.Consistent.{IsConsistent}
use deepseek_moderation_api.Registry.References.{run_commands-IsConsistent}
use deepseek_moderation_api.Registry.Locks.{policy_row, revision_at}
use deepseek_moderation_api.Registry.Edits.{second_edit-refused}
use deepseek_moderation_api.Registry.Revocation.{Accepts}
use deepseek_moderation_api.Registry.Withdrawn.{authenticate_key-withdrawn}
use deepseek_moderation_api.Examples.Policy.{environment, settings}

abbrev pub channel : String → ChannelRow
channel id = record {
  id = id;
  name = codes "main";
  model = codes "m";
  credential_id = "credential";
  timeout_ms = pos 7000;
  max_tokens = pos 512;
  max_concurrency = pos 4;
  rpm = pos 0;
  text_only = true;
  enabled = true;
  revision = 1;
  cache_epoch = "epoch";
}

abbrev pub policy : String → PolicyRow
policy id = record {
  id = id;
  name = codes "forum";
  alias = id;
  enabled = true;
  archived = false;
  revision = 1;
  config = settings;
}

abbrev pub key : KeyRow
key = record {
  id = "key";
  name = codes "client";
  policy_ids = "forum" ∷ [];
  rpm = pos 60;
  active = true;
  expires_at = none;
  token_hash = "old";
  revision = 1;
  deleted = false;
}

abbrev pub registry : Registry
registry = record {
  credentials =
      record {
        id = "credential";
        provider = "deepseek";
        base_url = codes "https://api.example";
        api_format = "";
        active = true;
        secret = codes "sk-secret";
      }
      ∷ [];
  channels = channel "primary" ∷ channel "backup" ∷ [];
  policies = policy "forum" ∷ policy "shop" ∷ [];
  keys = key ∷ [];
  actions = [];
}

registry-IsConsistent : IsConsistent registry
registry-IsConsistent = record {
  bound = ((refl, (refl, tt)), ((refl, (refl, tt)), tt));
  keyed = (refl, (refl, tt));
  idle = (refl, (refl, tt));
  connected = (refl, (refl, tt));
  granted = ((λ live. (refl, tt)), tt);
}

-- The shop's policy is archived and deleted; the forum's cannot be; the commit of a revocation fails.
abbrev session : List (Command × Result (Unit {0}))
session =
    (policy_archive "shop" 1 true false, ok tt)
    ∷ (policy_delete "shop" false, ok tt)
    ∷ (policy_archive "forum" 1 true false, ok tt)
    ∷ (policy_delete "forum" false, ok tt)
    ∷ (channel_delete "primary", ok tt)
    ∷ (key_revoke "key", err internal)
    ∷ []

session_actions :
    (run_commands environment settings session registry).actions
    ≡ "policy.archive" ∷ "policy.delete" ∷ "policy.archive" ∷ []
unfolding run_commands mutate finish_transaction transaction archive_policy archive_found
    delete_policy delete_found delete_channel revoke_key revoke_found find_row update_row remove_row
session_actions = refl

run_commands-IsConsistent_example :
    IsConsistent (run_commands environment settings session registry)
run_commands-IsConsistent_example =
    run_commands-IsConsistent environment settings session registry registry-IsConsistent

abbrev archived : Registry
archived =
    (run_command environment settings (ok tt) (policy_archive "forum" 1 true false) registry).0

second_edit-refused_example :
    (revision_at (policy_row "forum") archived ≡ some 2)
    × ((e : Failure) × (run_command environment settings
            (ok tt)
            (policy_state "forum" 1 true)
            archived
          ≡ (archived, err e)))
unfolding mutate finish_transaction transaction archive_policy archive_found find_row update_row
second_edit-refused_example =
    second_edit-refused environment settings (policy_archive "forum" 1 true false)
      (policy_state "forum" 1 true) (policy_row "forum") 1 (ok tt) (ok tt) registry refl refl refl

abbrev rotated : Registry
rotated = (run_command environment settings (ok tt) (key_rotate "key" 1 "new") registry).0

abbrev rotated_key : KeyRow
rotated_key = record key { token_hash = "new"; revision = 2 }

-- The old token is refused after the session.
rotated_old :
    authenticate_key "old" 5 (run_commands environment settings session rotated)
    ≡ err (problem 401 "invalid_api_key")
unfolding mutate finish_transaction transaction rotate_key rotate_found find_row update_row
    authenticate_key find_token run_commands archive_policy archive_found delete_policy delete_found
    delete_channel revoke_key revoke_found remove_row
rotated_old = refl

authenticate_key-withdrawn_example :
    Accepts "new" 5 rotated_key × (key.id ≡ "key" → some rotated_key.token_hash ≡ some "new")
unfolding mutate finish_transaction transaction rotate_key rotate_found find_row update_row
    authenticate_key find_token run_commands archive_policy archive_found delete_policy delete_found
    delete_channel revoke_key revoke_found remove_row
authenticate_key-withdrawn_example =
    authenticate_key-withdrawn environment settings "key" (some "new") (key_rotate "key" 1 "new")
      (ok tt) session registry "new" 5 rotated_key refl refl
      (refl, (refl, (refl, (refl, (refl, (refl, tt)))))) refl
