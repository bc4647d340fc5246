-- ===== src/Policy/Config.antt =====
-- The settings of one inference and their validation: `PolicyConfig` of internal/audit/model.go.
-- A float64 that is a number is counted in a unit of which 1 is `one` and every threshold a multiple.
use deepseek_moderation_api.Prelude.{
  ℕ, Bool, false, not, ◌&&◌, List, Option, String, if◌then◌else◌, length, leb, ◌==◌, all, ◌||◌,
}
use deepseek_moderation_api.Prelude.Int.{ℤ, pos, negsuc}
use deepseek_moderation_api.Text.{codes, utf8_length}
use deepseek_moderation_api.Keywords.{is_blank}
use deepseek_moderation_api.Policy.Provider.{
  Url, provider_id, validate_provider_url, validate_provider_api_format,
}

pub data Float : Type 0 where
  finite : ℤ → Float
  not_finite : Float

abbrev pub in_unit : (one : ℕ) → Float → Bool
in_unit one (finite (pos n)) = leb n one
in_unit one (finite (negsuc n)) = false
in_unit one not_finite = false

abbrev pub within : (lo hi : ℕ) → ℤ → Bool
within lo hi (pos n) = leb lo n && leb n hi
within lo hi (negsuc n) = false

pub record PolicyConfig : Type 0 where
  pub reason_max_chars : ℤ
  pub api_format : String
  pub text_only : Bool
  pub image_count : ℕ
  pub provider : String
  pub connection_revision : String
  pub result_cache_ttl : ℤ
  pub prompt : List ℕ
  pub threshold : Float
  pub model : List ℕ
  pub base_url : List ℕ
  pub credential_id : String
  pub timeout_ms : ℤ
  pub max_tokens : ℤ
  pub store_input : Bool
  pub retention_days : ℤ

-- Zero stands for `MaxReasonRunes`.
unfoldable pub reason_limit : ℤ → ℤ
reason_limit (pos n) = if n == 0 then pos 80 else pos n
reason_limit (negsuc n) = negsuc n

abbrev pub is_text : List ℕ → Bool
is_text text = not (is_blank text) && leb (length text) 64000

-- `modelNamePattern`.
abbrev pub is_model_char : ℕ → Bool
is_model_char c =
    leb b'a' c && leb c b'z'
    || leb b'A' c && leb c b'Z'
    || leb b'0' c && leb c b'9'
    || c == b'.'
    || c == b'_'
    || c == b':'
    || c == b'/'
    || c == b'~'
    || c == b'-'

unfoldable pub is_model_name : List ℕ → Bool
is_model_name name = leb 1 (length name) && leb (length name) 100 && all is_model_char name

module _ (parse : List ℕ → Option Url) (origins : List ℕ) (one : ℕ) where
  -- `PolicyConfig.Validate`; true where it returns nil.
  unfoldable pub validate_config : PolicyConfig → Bool
  unfolding reason_limit
  validate_config c =
      within 1 4096 (reason_limit c.reason_max_chars)
      && within 0 3600 c.result_cache_ttl
      && is_text c.prompt
      && in_unit one c.threshold
      && is_model_name c.model
      && validate_provider_url parse origins (provider_id c.provider) c.base_url
      && validate_provider_api_format (provider_id c.provider) c.api_format
      && leb (utf8_length (codes c.connection_revision)) 100
      && within 1000 30000 c.timeout_ms
      && within 64 4096 c.max_tokens
      && within 1 365 c.retention_days
