-- ===== src/Policy/Provider.antt =====
-- Providers, their interfaces and addresses: internal/audit/provider.go. Parsing a URL is net/url's:
-- `parse` gives the parts that the code reads.
use deepseek_moderation_api.Prelude.{
  ℕ, Bool, false, not, ◌&&◌, ◌||◌, List, ◌++◌, Option, none, some, String, str_eq, if◌then◌else◌,
  length, any, ◌==◌,
}
use deepseek_moderation_api.Text.{codes, split, trim_suffix}
use deepseek_moderation_api.Money.{trim_space}
use deepseek_moderation_api.Keywords.{text_eq, has_part}

abbrev pub deepseek : String
deepseek = "deepseek"

abbrev pub grok_via_sub2api : String
grok_via_sub2api = "grok_via_sub2api"

abbrev pub typesafe : String
typesafe = "typesafe"

-- `url.URL`; `path` is its EscapedPath.
pub record Url : Type 0 where
  pub scheme : List ℕ
  pub host : List ℕ
  pub hostname : List ℕ
  pub path : List ℕ
  pub raw_query : List ℕ
  pub opaque : List ℕ
  pub has_user : Bool
  pub force_query : Bool

abbrev pub is_empty : List ℕ → Bool
is_empty text = length text == 0

-- Each validation is true where the code returns nil.
unfoldable pub validate_api_format : String → Bool
validate_api_format format =
    str_eq format ""
    || str_eq format "responses"
    || str_eq format "chat_completions"
    || str_eq format "systemone"

unfoldable pub validate_provider_api_format : (provider format : String) → Bool
unfolding validate_api_format
validate_provider_api_format provider format =
    validate_api_format format
    && not (str_eq provider typesafe && not (str_eq format "") && not (str_eq format "systemone"))
    && not (not (str_eq provider typesafe) && str_eq format "systemone")

unfoldable pub provider_id : String → String
provider_id provider = if str_eq provider "" then deepseek else provider

abbrev pub is_http : Url → Bool
is_http u = text_eq u.scheme (codes "https") || text_eq u.scheme (codes "http")

abbrev pub is_plain : List ℕ → Url → Bool
is_plain base u =
    not (is_empty u.hostname)
    && not u.has_user
    && is_empty u.raw_query
    && not u.force_query
    && not (has_part base (codes "#"))
    && is_empty u.opaque

-- `origins` is the environment's AUDIT_SUB2API_ORIGINS.
unfoldable pub is_allowed : (origins : List ℕ) → Url → Bool
is_allowed origins u =
    any (λ value. text_eq (trim_space value) (u.scheme ++ codes "://" ++ u.host))
      (split b',' origins)

unfoldable pub reaches : (provider : String) → (origins : List ℕ) → Url → Bool
reaches provider origins u =
    if str_eq provider deepseek || str_eq provider typesafe
    then is_http u
    else str_eq provider grok_via_sub2api && is_http u && is_allowed origins u

module _ (parse : List ℕ → Option Url) where
  unfoldable pub validate_provider_url :
      (origins : List ℕ) (provider : String) (base : List ℕ) → Bool
  unfolding reaches
  validate_provider_url origins provider base = elim (parse base) [
    | none ↦ false
    | some u ↦ is_plain base u && reaches provider origins u
  ]

  -- Only a root slash is dropped.
  unfoldable pub normalize_provider_url : List ℕ → List ℕ
  normalize_provider_url base = elim (parse base) [
    | none ↦ base
    | some u ↦ if text_eq u.path (codes "/") then trim_suffix b'/' base else base
  ]
