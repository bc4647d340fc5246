-- ===== src/Policy/Candidates.antt =====
-- The candidates of a request: `executeRoute` of internal/audit/router.go before its loop (lines 531
-- to 631 and 643 to 652). What the database and the vault answer is an argument (Answers); `digest`
-- is that of the concatenation of its arguments.
use deepseek_moderation_api.Prelude.{
  ℕ, ◌+◌, leb, ◌==◌, map, Bool, true, false, not, ◌&&◌, ◌||◌, List, [], ◌∷◌, Option, none, some,
  String, str_eq, if◌then◌else◌, any, ltb, Failure, Result, ok, err, problem, ◌>>=◌, ◌>>◌,
  refuse_if,
}
use deepseek_moderation_api.Prelude.Int.{ℤ, pos, pos_part}
use deepseek_moderation_api.Keywords.{is_blank, applies, text_eq}
use deepseek_moderation_api.Router.State.{RouteCandidate}
use deepseek_moderation_api.Policy.Provider.{Url, typesafe, provider_id, normalize_provider_url}
use deepseek_moderation_api.Text.{codes}
use deepseek_moderation_api.Policy.Config.{PolicyConfig, validate_config}
use deepseek_moderation_api.Policy.Settings.{
  ChannelBinding, PolicySettings, bindings, block_rule, ignore_rule, typesafe_question,
  validate_settings,
}

-- `ModelChannel`, with the fields that the choice reads.
pub record StoredChannel : Type 0 where
  pub id : String
  pub api_format : String
  pub provider : String
  pub base_url : List ℕ
  pub model : List ℕ
  pub credential_id : String
  pub credential_active : Bool
  pub timeout_ms : ℤ
  pub max_tokens : ℤ
  pub max_concurrency : ℕ
  pub rpm : ℕ
  pub text_only : Bool
  pub enabled : Bool
  pub revision : ℕ
  pub cache_epoch : String

unfoldable pub inference : StoredChannel → PolicySettings → PolicyConfig
inference c s = record {
  reason_max_chars = pos 0;
  api_format = c.api_format;
  text_only = c.text_only || str_eq c.provider typesafe;
  image_count = 0;
  provider = c.provider;
  connection_revision = c.cache_epoch;
  result_cache_ttl = s.result_cache_ttl;
  prompt = if str_eq c.provider typesafe then typesafe_question s else s.prompt;
  threshold = s.threshold;
  model = c.model;
  base_url = c.base_url;
  credential_id = c.credential_id;
  timeout_ms = c.timeout_ms;
  max_tokens = c.max_tokens;
  store_input = s.store_input;
  retention_days = s.retention_days;
}

pub record Candidate : Type 0 where
  pub channel : StoredChannel
  pub binding : ChannelBinding
  pub cfg : PolicyConfig
  pub key : String
  pub signature : String

-- What the loop of attempts reads of a candidate.
abbrev pub routed : Candidate → RouteCandidate
routed c = record {
  channel = record {
    id = c.channel.id;
    max_concurrency = c.channel.max_concurrency;
    rpm = c.channel.rpm;
    revision = c.channel.revision;
  };
  binding = record { priority = pos_part c.binding.priority; weight = pos_part c.binding.weight };
  signature = c.signature;
}

pub record RouteCredential : Type 0 where
  pub key : String
  pub provider : String
  pub base_url : List ℕ
  pub api_format : String

-- `routeResources`: the active credentials by id, and the models with a price by model and credential.
pub record Resources : Type 0 where
  pub credential : String → Option RouteCredential
  pub priced : (model : List ℕ) → (credential : String) → Bool

pub data Kind : Type 0 where
  production test : Kind

-- Outside of the program: net/url's parser, the allowed origins, the unit of a threshold, SHA-256.
pub record Environment : Type 0 where
  pub parse : List ℕ → Option Url
  pub origins : List ℕ
  pub one : ℕ
  pub digest : List String → String

-- A call of `executeRoute`; `only` is its onlyChannel, `raw` the JSON of the policy's settings.
pub record Request : Type 0 where
  pub kind : Kind
  pub input : List ℕ
  pub only : String
  pub raw : String
  pub images : ℕ

pub record Answers : Type 0 where
  pub trial_slot_free : Bool
  pub budget : Result Bool
  pub reason_max_chars : Result ℤ
  pub resources : Result Resources

-- `bindings[b.ChannelID] = b` for each binding in turn: the last one of an id stays.
unfoldable pub find_binding : String → List ChannelBinding → Option ChannelBinding
find_binding id [] = none
find_binding id (b ∷ bs) = elim (find_binding id bs) [
  | some later ↦ some later
  | none ↦ if str_eq b.channel_id id then some b else none
]

-- What becomes of a channel or of a candidate: the two flags of the code are kept in `left_out`.
pub data Choice : Type 0 where
  passed_over left_out : Choice
  chosen : Candidate → Choice

-- A loop of the choice, with whether it left a candidate out for the reason that it notes.
abbrev pub add_choice : Choice → List Candidate × Bool → List Candidate × Bool
add_choice passed_over rest = rest
add_choice left_out (cs, noted) = (cs, true)
add_choice (chosen c) (cs, noted) = (c ∷ cs, noted)

unfoldable pub choose_all {ℓ} :
    {A : Type ℓ} → (A → Result Choice) → List A → Result (List Candidate × Bool)
choose_all choice [] = ok ([], false)
choose_all choice (x ∷ xs) = do c ← choice x; rest ← choose_all choice xs; ok (add_choice c rest)

abbrev pub is_asked : (only id : String) → Bool
is_asked only id = str_eq only "" || str_eq only id

-- `canonicalPriceModel` (internal/audit/pricing.go); the letters of a model's name are ASCII.
abbrev pub lower : ℕ → ℕ
lower c = if leb b'A' c && leb c b'Z' then c + 32 else c

unfoldable pub canonical_price_model : List ℕ → List ℕ
canonical_price_model model =
    let name = map lower model in
    if text_eq name (codes "deepseek-v4-flash")
      || text_eq name (codes "deepseek-v4-flash-vision-exp")
    then codes "deepseek-flash"
    else model

module _ (env : Environment) where
  -- The configuration that a channel is called with.
  unfoldable pub channel_config : PolicySettings → Request → ℤ → StoredChannel → PolicyConfig
  channel_config s r reason_max_chars c = record (inference c s) {
    reason_max_chars = reason_max_chars;
    image_count = if c.text_only then 0 else r.images;
    connection_revision = env.digest (r.raw ∷ c.id ∷ c.cache_epoch ∷ []);
  }

  -- A channel that may be used, in the loop over the channels.
  unfoldable pub consider_bound :
      PolicySettings → Request → ℤ → StoredChannel → ChannelBinding → Result Choice
  consider_bound s r reason_max_chars c b =
      let cfg = channel_config s r reason_max_chars c in
      if c.text_only && ltb 0 r.images && is_blank r.input
      then ok left_out
      else if validate_config env.parse env.origins env.one cfg
      then ok (chosen (record { channel = c; binding = b; cfg = cfg; key = ""; signature = "" }))
      else err (problem 400 "invalid_channel")

  unfoldable pub consider : PolicySettings → Request → ℤ → StoredChannel → Result Choice
  unfolding consider_bound
  consider s r reason_max_chars c = elim (find_binding c.id (bindings s)) [
    | none ↦ ok passed_over
    | some b ↦
        if b.enabled && c.enabled && c.credential_active && is_asked r.only c.id
        then consider_bound s r reason_max_chars c b
        else ok passed_over
  ]

  abbrev pub same_address : List ℕ → List ℕ → Bool
  same_address a b =
      text_eq (normalize_provider_url env.parse a) (normalize_provider_url env.parse b)

  abbrev pub is_bound_to : RouteCredential → PolicyConfig → Bool
  is_bound_to k cfg =
      str_eq k.api_format cfg.api_format
      && str_eq k.provider (provider_id cfg.provider)
      && same_address k.base_url cfg.base_url

  abbrev pub has_price : Resources → Candidate → Bool
  has_price resources c =
      c.cfg.image_count == 0
      && resources.priced (canonical_price_model c.channel.model) c.channel.credential_id

  -- A candidate in the loop over the credentials.
  unfoldable pub equip : Resources → (budget : Bool) → Candidate → Result Choice
  equip resources budget c = elim (resources.credential c.channel.credential_id) [
    | none ↦ ok passed_over
    | some k ↦
        if not (is_bound_to k c.cfg)
        then err (problem 400 "credential_provider_mismatch")
        else if budget && not (has_price resources c)
        then ok left_out
        else ok (
            chosen (record c {
              key = k.key;
              signature = env.digest (c.channel.cache_epoch ∷ k.key ∷ []);
            }))
  ]

-- How the loop of attempts begins.
pub record Start : Type 0 where
  pub candidates : List Candidate
  pub last_error : Failure
  pub limit : ℕ

pub data Prepared : Type 0 where
  blocked ignored : Prepared
  ready : Start → Prepared

-- Why there is no candidate.
unfoldable pub start_error : List Candidate → (no_price no_text : Bool) → Failure
start_error (c ∷ cs) no_price no_text = problem 503 "no_available_channel"
start_error [] true no_text = problem 503 "pricing_unavailable"
start_error [] false true = problem 400 "empty_input"
start_error [] false false = problem 503 "no_available_channel"

unfoldable pub check_only : (only : String) → List ChannelBinding → Result (Unit {0})
check_only only bs =
    refuse_if (not (str_eq only "") && not (any (λ b. str_eq b.channel_id only && b.enabled) bs))
      (problem 400 "invalid_channel")

unfoldable pub take_slot : Kind → Answers → Result (Unit {0})
take_slot production a = ok tt
take_slot test a = refuse_if (not a.trial_slot_free) (problem 503 "trial_capacity_exceeded")

unfoldable pub has_budget : Kind → Answers → Result Bool
has_budget production a = a.budget
has_budget test a = ok false

unfoldable pub unless_keyword : PolicySettings → List ℕ → Result Prepared → Result Prepared
unless_keyword s input routes =
    if applies (block_rule s) input
    then ok blocked
    else if applies (ignore_rule s) input
    then ok ignored
    else routes

module _ (env : Environment) where
  -- The choice, once no keyword decides.
  unfoldable pub choose_candidates :
      PolicySettings → List StoredChannel → Request → Answers → Result Prepared
  choose_candidates s channels r a = do
    take_slot r.kind a
    budget ← has_budget r.kind a
    reason_max_chars ← a.reason_max_chars
    considered ← choose_all (consider env s r reason_max_chars) channels
    resources ← a.resources
    equipped ← choose_all (equip env resources budget) considered.0
    ok (
        ready (record {
          candidates = equipped.0;
          last_error = start_error equipped.0 equipped.1 considered.1;
          limit = if str_eq r.only "" then pos_part s.max_attempts else 1;
        }))

  unfoldable pub prepare : PolicySettings → List StoredChannel → Request → Answers → Result Prepared
  unfolding choose_candidates check_only unless_keyword
  prepare s channels r a = do
    refuse_if (not (validate_settings env.parse env.origins env.one s))
        (problem 400 "invalid_config")
    check_only r.only (bindings s)
    unless_keyword s r.input (choose_candidates s channels r a)
