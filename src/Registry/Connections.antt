-- ===== src/Registry/Connections.antt =====
-- Credentials and channels: SaveProviderCredential (internal/audit/store.go), credentials.go,
-- channels.go. Fresh ids and epochs are arguments.
use deepseek_moderation_api.Prelude.{
  ℕ, ◌+◌, Bool, false, not, ◌&&◌, ◌||◌, List, [], ◌∷◌, Option, none, some, String, str_eq, ltb, leb,
  ◌==◌, if◌then◌else◌, any, internal, Result, ok, err, problem, ◌>>=◌, ◌>>◌, refuse_if,
}
use deepseek_moderation_api.Prelude.Int.{pos_part}
use deepseek_moderation_api.Text.{codes, utf8_length}
use deepseek_moderation_api.Keywords.{is_blank}
use deepseek_moderation_api.Policy.Provider.{
  deepseek, typesafe, is_empty, validate_provider_url, validate_provider_api_format,
  normalize_provider_url,
}
use deepseek_moderation_api.Policy.Config.{within, validate_config}
use deepseek_moderation_api.Policy.Settings.{PolicySettings, bindings}
use deepseek_moderation_api.Policy.Candidates.{StoredChannel, inference, Environment}
use deepseek_moderation_api.Registry.Tables.{
  CredentialRow, ChannelRow, PolicyRow, Registry, not_found, revision_conflict, has_row, find_row,
  update_row, remove_row, insert_row,
}

pub record CredentialForm : Type 0 where
  pub provider : String
  pub base_url : List ℕ
  pub api_format : Option String
  pub key : List ℕ
  pub active : Bool

abbrev pub form_provider : CredentialForm → String
form_provider f = if str_eq f.provider "" then deepseek else f.provider

unfoldable pub form_url : CredentialForm → List ℕ
form_url f =
    if not (is_empty f.base_url)
    then f.base_url
    else if str_eq f.provider typesafe
    then codes "https://api.typesafe.ai"
    else codes "https://api.deepseek.com"

abbrev pub or_empty : Option String → String
or_empty none = ""
or_empty (some s) = s

unfoldable pub form_format : CredentialForm → String
form_format f =
    if str_eq f.provider typesafe && str_eq (or_empty f.api_format) ""
    then "systemone"
    else or_empty f.api_format

abbrev pub is_gap : ℕ → Bool
is_gap c = c == 13 || c == 10 || c == 9 || c == 32

unfoldable pub key_valid : List ℕ → Bool
key_valid key =
    is_empty key || leb 8 (utf8_length key) && leb (utf8_length key) 512 && not (any is_gap key)

-- Without a format in the form the old one stays.
abbrev pub kept_format : CredentialForm → CredentialRow → String
kept_format f r = elim f.api_format [ none ↦ r.api_format | some s ↦ form_format f ]

-- The channels on a changed credential start afresh.
abbrev pub touch_channel : String → (epoch : String) → ChannelRow → ChannelRow
touch_channel id epoch c =
    if str_eq c.credential_id id
    then record c { revision = c.revision + 1; cache_epoch = epoch }
    else c

unfoldable pub touch_channels : String → (epoch : String) → List ChannelRow → List ChannelRow
touch_channels id epoch [] = []
touch_channels id epoch (c ∷ cs) = touch_channel id epoch c ∷ touch_channels id epoch cs

unfoldable pub delete_credential : String → Registry → Result Registry
delete_credential id g = do
  refuse_if (not (has_row (λ c. c.id) id g.credentials)) not_found
  refuse_if (any (λ c. str_eq c.credential_id id) g.channels) (problem 409 "credential_in_use")
  ok (record g { credentials = remove_row (λ c. c.id) id g.credentials })

-- A channel that is being saved, with its credential; it has no cache epoch yet.
abbrev pub joined : ChannelRow → CredentialRow → StoredChannel
joined c k = record {
  id = c.id;
  api_format = k.api_format;
  provider = k.provider;
  base_url = k.base_url;
  model = c.model;
  credential_id = c.credential_id;
  credential_active = k.active;
  timeout_ms = c.timeout_ms;
  max_tokens = c.max_tokens;
  max_concurrency = pos_part c.max_concurrency;
  rpm = pos_part c.rpm;
  text_only = c.text_only || str_eq k.provider typesafe;
  enabled = c.enabled;
  revision = c.revision;
  cache_epoch = "";
}

unfoldable pub check_channel : ChannelRow → Result (Unit {0})
check_channel c = do
  refuse_if
      (is_blank c.name || ltb 200 (utf8_length c.name) || not (within 1 256 c.max_concurrency))
      (problem 400 "invalid_channel")
  refuse_if (not (within 0 100000 c.rpm)) (problem 400 "invalid_channel")

abbrev pub at_revision : ℕ → Option ChannelRow → Bool
at_revision revision none = false
at_revision revision (some c) = c.revision == revision

abbrev pub new_channel : Bool → ChannelRow → ChannelRow
new_channel text_only c = record c { text_only = text_only; revision = 1 }

abbrev pub edit_channel : Bool → ChannelRow → ChannelRow → ChannelRow
edit_channel text_only c r = record c { text_only = text_only; revision = r.revision + 1 }

module _ (env : Environment) where
  -- The checks before the transaction.
  unfoldable pub check_credential : CredentialForm → Result (Unit {0})
  unfolding form_url form_format key_valid
  check_credential f = do
    refuse_if (not (validate_provider_url env.parse env.origins (form_provider f) (form_url f)))
        (problem 400 "invalid_connection")
    refuse_if (not (validate_provider_api_format (form_provider f) (form_format f)))
        (problem 400 "invalid_connection")
    refuse_if (not (key_valid f.key)) (problem 400 "invalid_credential")

  abbrev pub new_credential : String → CredentialForm → CredentialRow
  new_credential id f = record {
    id = id;
    provider = form_provider f;
    base_url = normalize_provider_url env.parse (form_url f);
    api_format = form_format f;
    active = f.active;
    secret = f.key;
  }

  unfoldable pub create_credential : String → CredentialForm → Registry → Result Registry
  unfolding check_credential
  create_credential id f g = do
    check_credential f
    refuse_if (is_empty f.key) (problem 400 "key_required")
    rows ← insert_row (λ r. r.id) (new_credential id f) g.credentials
    ok (record g { credentials = rows })

  abbrev pub edit_credential : CredentialForm → CredentialRow → CredentialRow
  edit_credential f r = record r {
    active = f.active;
    base_url = normalize_provider_url env.parse (form_url f);
    api_format = kept_format f r;
    secret = if is_empty f.key then r.secret else f.key;
  }

  unfoldable pub found_credential :
      String → CredentialForm → (epoch : String) → Option CredentialRow → Registry → Result Registry
  found_credential id f epoch none g = err internal
  found_credential id f epoch (some r) g = do
    refuse_if (not (str_eq r.provider (form_provider f)))
        (problem 400 "credential_binding_immutable")
    ok (record g {
      credentials = update_row (λ c. c.id) id (edit_credential f) g.credentials;
      channels = touch_channels id epoch g.channels;
    })

  unfoldable pub save_credential :
      String → CredentialForm → (epoch : String) → Registry → Result Registry
  unfolding check_credential found_credential
  save_credential id f epoch g = do
    check_credential f
    found_credential id f epoch (find_row (λ c. c.id) id g.credentials) g

  -- The checks of the transaction, on the credential; `defaults` are DefaultSettings.
  unfoldable pub check_connection : PolicySettings → ChannelRow → Option CredentialRow → Result Bool
  check_connection defaults c none = err (problem 400 "credential_required")
  check_connection defaults c (some k) = do
    refuse_if (c.enabled && not k.active) (problem 400 "credential_required")
    refuse_if
        (not (validate_config env.parse env.origins env.one (inference (joined c k) defaults)))
        (problem 400 "invalid_channel")
    ok (c.text_only || str_eq k.provider typesafe)

  unfoldable pub create_channel : PolicySettings → ChannelRow → Registry → Result Registry
  unfolding check_channel check_connection
  create_channel defaults c g = do
    check_channel c
    text_only ← check_connection defaults c (find_row (λ k. k.id) c.credential_id g.credentials)
    rows ← insert_row (λ r. r.id) (new_channel text_only c) g.channels
    ok (record g { channels = rows })

  unfoldable pub save_channel : PolicySettings → ChannelRow → Registry → Result Registry
  unfolding check_channel check_connection
  save_channel defaults c g = do
    check_channel c
    text_only ← check_connection defaults c (find_row (λ k. k.id) c.credential_id g.credentials)
    refuse_if (not (at_revision c.revision (find_row (λ r. r.id) c.id g.channels)))
        revision_conflict
    ok (record g { channels = update_row (λ r. r.id) c.id (edit_channel text_only c) g.channels })

abbrev pub binds : String → PolicyRow → Bool
binds id p = any (λ b. str_eq b.channel_id id) (bindings p.config)

unfoldable pub delete_channel : String → Registry → Result Registry
delete_channel id g = do
  refuse_if (not (has_row (λ c. c.id) id g.channels)) not_found
  refuse_if (any (binds id) g.policies) (problem 409 "channel_in_use")
  ok (record g { channels = remove_row (λ c. c.id) id g.channels })

abbrev pub new_epoch : String → ChannelRow → ChannelRow
new_epoch epoch c = record c { cache_epoch = epoch; revision = c.revision + 1 }

unfoldable pub clear_channel_cache : String → (epoch : String) → Registry → Result Registry
clear_channel_cache id epoch g = do
  refuse_if (not (has_row (λ c. c.id) id g.channels)) not_found
  ok (record g { channels = update_row (λ c. c.id) id (new_epoch epoch) g.channels })
