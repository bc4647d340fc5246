-- ===== src/Examples/Policy.antt =====
-- A policy with two channels, of which one is disabled: internal/audit/model.go and router.go.
use deepseek_moderation_api.Prelude.{
  ◌≤◌, ◌≡◌, refl, Bool, true, false, List, [], ◌∷◌, some, map, All, String, ok, problem,
}
use deepseek_moderation_api.Prelude.Int.{pos}
use deepseek_moderation_api.Text.{codes, utf8_length}
use deepseek_moderation_api.Money.{trim_space, trim_left_space, trim_right_space}
use deepseek_moderation_api.Keywords.{
  text_eq, has_prefix, has_part, is_blank, applies, validate_keyword_list,
}
use deepseek_moderation_api.Router.Limits.{DistinctIds}
use deepseek_moderation_api.Policy.Provider.{
  Url, provider_id, validate_provider_url, validate_provider_api_format, normalize_provider_url,
}
use deepseek_moderation_api.Policy.Config.{finite, is_model_name, validate_config}
use deepseek_moderation_api.Policy.Settings.{
  ChannelBinding, PolicySettings, bindings_valid, settings_config, typesafe_question,
  validate_settings,
}
use deepseek_moderation_api.Policy.Candidates.{
  StoredChannel, inference, Candidate, routed, RouteCredential, Resources, production, Environment,
  Request, Answers, find_binding, choose_all, channel_config, consider, equip,
  canonical_price_model, Start, ready, start_error, take_slot, has_budget, prepare,
}
use deepseek_moderation_api.Policy.Ready.{IsReady, prepare-IsReady}

abbrev home : Url
home = record {
  scheme = codes "https";
  host = codes "api.example";
  hostname = codes "api.example";
  path = [];
  raw_query = [];
  opaque = [];
  has_user = false;
  force_query = false;
}

abbrev pub environment : Environment
environment = record {
  parse = λ base. some home;
  origins = [];
  one = 100;
  digest = λ parts. "digest";
}

abbrev pub settings : PolicySettings
settings = record {
  typesafe_question = codes "Is this safe?";
  keyword_block_enabled = false;
  keyword_block_match_mode = "";
  block_keywords = [];
  keyword_ignore_enabled = false;
  keyword_ignore_match_mode = "exact";
  ignore_keywords = [];
  model_output_retention_days = pos 7;
  prompt = codes "Judge.";
  threshold = finite (pos 80);
  result_cache_ttl = pos 0;
  store_input = false;
  retention_days = pos 30;
  total_timeout_ms = pos 9000;
  max_attempts = pos 3;
  max_attempts_per_priority = pos 2;
  priority_timeout_ms = pos 4000;
  failure_threshold = pos 3;
  failure_cooldown_minutes = pos 30;
  channels = some (binding "primary" ∷ binding "backup" ∷ []);
}
  where
    binding : String → ChannelBinding
    binding id = record { channel_id = id; priority = pos 1; weight = pos 10; enabled = true }

abbrev channel : String → Bool → StoredChannel
channel id enabled = record {
  id = id;
  api_format = "";
  provider = "deepseek";
  base_url = codes "https://api.example";
  model = codes "m";
  credential_id = "key";
  credential_active = true;
  timeout_ms = pos 7000;
  max_tokens = pos 512;
  max_concurrency = 4;
  rpm = 0;
  text_only = true;
  enabled = enabled;
  revision = 1;
  cache_epoch = "epoch";
}

abbrev request : Request
request = record { kind = production; input = codes "hello"; only = ""; raw = "{}"; images = 0 }

abbrev credential : RouteCredential
credential = record {
  key = "secret";
  provider = "deepseek";
  base_url = codes "https://api.example";
  api_format = "";
}

abbrev resources : Resources
resources = record { credential = λ id. some credential; priced = λ model id. true }

abbrev answers : Answers
answers = record {
  trial_slot_free = true;
  budget = ok true;
  reason_max_chars = ok (pos 80);
  resources = ok resources;
}

abbrev channels : List StoredChannel
channels = channel "primary" true ∷ channel "backup" false ∷ []

abbrev candidate : Candidate
candidate = record {
  channel = channel "primary" true;
  binding = record { channel_id = "primary"; priority = pos 1; weight = pos 10; enabled = true };
  cfg = record (inference (channel "primary" true) settings) {
    reason_max_chars = pos 80;
    connection_revision = "digest";
  };
  key = "secret";
  signature = "digest";
}

abbrev start : Start
start = record {
  candidates = candidate ∷ [];
  last_error = problem 503 "no_available_channel";
  limit = 3;
}

prepared : prepare environment settings channels request answers ≡ ok (ready start)
unfolding prepare validate_settings typesafe_question is_blank trim_space trim_left_space
    trim_right_space validate_keyword_list settings_config validate_config is_model_name
    validate_provider_url validate_provider_api_format provider_id utf8_length bindings_valid
    applies take_slot has_budget choose_all consider find_binding channel_config inference equip
    normalize_provider_url text_eq canonical_price_model start_error has_part has_prefix
prepared = refl

prepare-IsReady_example :
    (rs : Resources) × (budget : Bool) × (answers.resources ≡ ok rs)
    × (has_budget request.kind answers ≡ ok budget)
    × All (IsReady environment settings request rs budget) start.candidates
    × DistinctIds (map routed start.candidates)
    × (1 ≤ start.limit)
    × (start.limit ≤ 5)
prepare-IsReady_example =
    prepare-IsReady environment settings channels request answers start (refl, (refl, tt)) prepared
