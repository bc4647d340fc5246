-- ===== src/Policy/Settings.antt =====
-- The settings of a policy and their validation: `PolicySettings` of internal/audit/model.go.
use deepseek_moderation_api.Prelude.{
  ℕ, Bool, true, false, not, ◌&&◌, ◌||◌, List, [], ◌∷◌, Option, none, some, String, str_eq,
  if◌then◌else◌, length, leb, any,
}
use deepseek_moderation_api.Prelude.Int.{ℤ, pos, pos_part}
use deepseek_moderation_api.Text.{codes}
use deepseek_moderation_api.Keywords.{KeywordRule, contains, exact, validate_keyword_list}
use deepseek_moderation_api.Router.Tier.{PolicySettings as RouteSettings}
use deepseek_moderation_api.Policy.Provider.{Url, is_empty}
use deepseek_moderation_api.Policy.Config.{Float, PolicyConfig, within, is_text, validate_config}

pub record ChannelBinding : Type 0 where
  pub channel_id : String
  pub priority : ℤ
  pub weight : ℤ
  pub enabled : Bool

-- `channels` is none for a nil slice.
pub record PolicySettings : Type 0 where
  pub typesafe_question : List ℕ
  pub keyword_block_enabled : Bool
  pub keyword_block_match_mode : String
  pub block_keywords : List (List ℕ)
  pub keyword_ignore_enabled : Bool
  pub keyword_ignore_match_mode : String
  pub ignore_keywords : List (List ℕ)
  pub model_output_retention_days : ℤ
  pub prompt : List ℕ
  pub threshold : Float
  pub result_cache_ttl : ℤ
  pub store_input : Bool
  pub retention_days : ℤ
  pub total_timeout_ms : ℤ
  pub max_attempts : ℤ
  pub max_attempts_per_priority : ℤ
  pub priority_timeout_ms : ℤ
  pub failure_threshold : ℤ
  pub failure_cooldown_minutes : ℤ
  pub channels : Option (List ChannelBinding)

abbrev pub default_typesafe_question : List ℕ
default_typesafe_question = codes "这段话是否可以提交给llm进行深度推理，不会涉及到风险，比如：色情、暴力、破解、诱导?"

unfoldable pub typesafe_question : PolicySettings → List ℕ
typesafe_question s =
    if is_empty s.typesafe_question then default_typesafe_question else s.typesafe_question

abbrev pub bindings : PolicySettings → List ChannelBinding
bindings s = elim s.channels [ none ↦ [] | some bs ↦ bs ]

abbrev pub match_mode_valid : String → Bool
match_mode_valid mode = str_eq mode "" || str_eq mode "contains" || str_eq mode "exact"

-- The settings as the keyword rules and the routing read them.
abbrev pub block_rule : PolicySettings → KeywordRule
block_rule s = record {
  enabled = s.keyword_block_enabled;
  mode = if str_eq s.keyword_block_match_mode "exact" then exact else contains;
  keywords = s.block_keywords;
}

abbrev pub ignore_rule : PolicySettings → KeywordRule
ignore_rule s = record {
  enabled = s.keyword_ignore_enabled;
  mode = if str_eq s.keyword_ignore_match_mode "exact" then exact else contains;
  keywords = s.ignore_keywords;
}

abbrev pub route_settings : PolicySettings → RouteSettings
route_settings s = record {
  max_attempts_per_priority = pos_part s.max_attempts_per_priority;
  priority_timeout_ms = pos_part s.priority_timeout_ms;
  failure_threshold = pos_part s.failure_threshold;
  failure_cooldown_minutes = pos_part s.failure_cooldown_minutes;
}

-- `DefaultConfig` (internal/audit/store.go) with the settings' own fields.
unfoldable pub settings_config : PolicySettings → PolicyConfig
settings_config s = record {
  reason_max_chars = pos 0;
  api_format = "";
  text_only = false;
  image_count = 0;
  provider = "";
  connection_revision = "";
  result_cache_ttl = s.result_cache_ttl;
  prompt = s.prompt;
  threshold = s.threshold;
  model = codes "deepseek-flash";
  base_url = codes "https://api.deepseek.com";
  credential_id = "";
  timeout_ms = pos 7000;
  max_tokens = pos 512;
  store_input = s.store_input;
  retention_days = s.retention_days;
}

-- The loop over the bindings, with the channels seen so far.
unfoldable pub bindings_valid : (seen : List String) → List ChannelBinding → Bool
bindings_valid seen [] = true
bindings_valid seen (b ∷ bs) =
    not (str_eq b.channel_id "")
    && not (any (str_eq b.channel_id) seen)
    && within 1 100 b.priority
    && within 1 1000 b.weight
    && bindings_valid (b.channel_id ∷ seen) bs

abbrev pub is_default : ℤ → Bool
is_default n = within 0 0 n

-- The checks that come before the one for nil.
unfoldable pub texts_valid : PolicySettings → Bool
texts_valid s =
    is_text (typesafe_question s)
    && match_mode_valid s.keyword_block_match_mode
    && validate_keyword_list s.block_keywords
    && match_mode_valid s.keyword_ignore_match_mode
    && validate_keyword_list s.ignore_keywords
    && within 0 365 s.model_output_retention_days

module _ (parse : List ℕ → Option Url) (origins : List ℕ) (one : ℕ) where
  -- The checks that come after the one for nil.
  unfoldable pub limits_valid : PolicySettings → List ChannelBinding → Bool
  limits_valid s bs =
      validate_config parse origins one (settings_config s)
      && within 1000 25000 s.total_timeout_ms
      && within 1 5 s.max_attempts
      && within 0 5 s.max_attempts_per_priority
      && (is_default s.priority_timeout_ms || within 100 25000 s.priority_timeout_ms)
      && within 0 100 s.failure_threshold
      && within 0 1440 s.failure_cooldown_minutes
      && leb (length bs) 100
      && bindings_valid [] bs

  -- `PolicySettings.Validate`; true where it returns nil.
  unfoldable pub validate_settings : PolicySettings → Bool
  unfolding texts_valid limits_valid
  validate_settings s =
      texts_valid s && elim s.channels [ none ↦ false | some bs ↦ limits_valid s bs ]
