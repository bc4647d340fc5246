-- ===== src/Moderate.antt =====
-- A moderation request until it is audited: `client` and `moderate` of internal/audit/server.go and
-- `RouteSnapshot` of channels.go. Each look into the database sees it at a time of its own.
pub mod Allowed
use deepseek_moderation_api.Prelude.{
  ℕ, ◌+◌, Bool, true, false, not, ◌&&◌, ◌||◌, List, [], ◌∷◌, Option, none, some, String, str_eq,
  ltb, ◌==◌, if◌then◌else◌, all, any, length, Failure, Result, ok, err, problem, ◌>>=◌, ◌>>◌,
  refuse_if,
}
use deepseek_moderation_api.Text.{codes, utf8_length}
use deepseek_moderation_api.Keywords.{has_prefix}
use deepseek_moderation_api.Policy.Settings.{PolicySettings, bindings, validate_settings}
use deepseek_moderation_api.Policy.Candidates.{Environment}
use deepseek_moderation_api.Registry.Tables.{
  ChannelRow, PolicyRow, KeyRow, Registry, not_found, has_row, find_row,
}
use deepseek_moderation_api.Registry.Keys.{authenticate_key}
use deepseek_moderation_api.ModerationInput.{
  AuditImage, Decoders, ModerationRequest, Body, parse_moderation_input, read_moderation_request,
}

abbrev pub bearer : List ℕ
bearer = codes "Bearer "

unfoldable pub drop_prefix : List ℕ → List ℕ → List ℕ
drop_prefix [] text = text
drop_prefix (k ∷ ks) [] = []
drop_prefix (k ∷ ks) (c ∷ cs) = drop_prefix ks cs

-- `client`, with the digest of tokens as an argument.
unfoldable pub authenticate_client :
    (digest : List ℕ → String) → (header : List ℕ) → (now : ℕ) → Registry → Result KeyRow
authenticate_client digest header now g = do
  refuse_if (not (has_prefix header bearer) || ltb 256 (utf8_length header))
      (problem 401 "invalid_api_key")
  authenticate_key (digest (drop_prefix bearer header)) now g

-- Aliases of archived policies are not found.
unfoldable pub find_alias : String → List PolicyRow → Result PolicyRow
find_alias alias [] = err not_found
find_alias alias (p ∷ ps) =
    let rest = find_alias alias ps in if str_eq p.alias alias && not p.archived then ok p else rest

-- The channels that the settings bind, each with its credential, in the order of the table; the
-- query sorts them by id.
unfoldable pub bound_rows : Registry → PolicySettings → List ChannelRow → List ChannelRow
bound_rows g s [] = []
bound_rows g s (c ∷ cs) =
    let rest = bound_rows g s cs in
    if any (λ b. str_eq b.channel_id c.id) (bindings s)
      && has_row (λ k. k.id) c.credential_id g.credentials
    then c ∷ rest
    else rest

abbrev pub settings_of : (preview : Option PolicySettings) → PolicyRow → PolicySettings
settings_of none p = p.config
settings_of (some s) p = s

-- What an audit is run on.
pub record ModerationCall : Type 0 where
  pub key : KeyRow
  pub policy : PolicyRow
  pub channels : List ChannelRow
  pub text : List ℕ
  pub images : List AuditImage

-- The database at the authentication, at the search for the alias and at the snapshot.
pub record Views : Type 0 where
  pub authenticated : Registry
  pub aliased : Registry
  pub snapshot : Registry

module _ (env : Environment) where
  unfoldable pub snapshot_of :
      Registry → PolicySettings → PolicyRow → Result (PolicyRow × List ChannelRow)
  unfolding bound_rows
  snapshot_of g s p = do
    refuse_if p.archived (problem 409 "policy_archived")
    refuse_if (not (validate_settings env.parse env.origins env.one s))
        (problem 400 "invalid_config")
    refuse_if (not (length (bound_rows g s g.channels) == length (bindings s)))
        (problem 400 "invalid_channel")
    ok (record p { config = s }, bound_rows g s g.channels)

  unfoldable pub snapshot_found :
      Registry
      → (preview : Option PolicySettings) → Option PolicyRow
      → Result (PolicyRow × List ChannelRow)
  unfolding snapshot_of
  snapshot_found g preview none = err not_found
  snapshot_found g preview (some p) = snapshot_of g (settings_of preview p) p

  unfoldable pub route_snapshot :
      (id : String)
      → (preview : Option PolicySettings) → Registry
      → Result (PolicyRow × List ChannelRow)
  unfolding snapshot_found
  route_snapshot id preview g = snapshot_found g preview (find_row (λ p. p.id) id g.policies)

  module _ {Raw : Type 0} (decode : Decoders Raw) (max_images : ℕ) where
    -- With the key, the limit of its rate kept, and the body read.
    unfoldable pub moderate_request : KeyRow → ModerationRequest Raw → Views → Result ModerationCall
    unfolding find_alias route_snapshot
    moderate_request k r v = do
      p ← find_alias r.model v.aliased.policies
      refuse_if (not (any (str_eq p.id) k.policy_ids)) (problem 403 "policy_forbidden")
      snapshot ← route_snapshot p.id none v.snapshot
      refuse_if (not snapshot.0.enabled) (problem 503 "policy_unavailable")
      input ← parse_moderation_input decode max_images r.input
      ok (record {
        key = k;
        policy = snapshot.0;
        channels = snapshot.1;
        text = input.0;
        images = input.1;
      })

    -- `rate` is what the count of the key's requests says.
    unfoldable pub moderate :
        (digest : List ℕ → String)
        → (header : List ℕ) → (now : ℕ) → (rate : KeyRow → Result Bool) → Body Raw
        → Views
        → Result ModerationCall
    unfolding authenticate_client moderate_request
    moderate digest header now rate received v = do
      k ← authenticate_client digest header now v.authenticated
      allowed ← rate k
      refuse_if (not allowed) (problem 429 "rate_limited")
      request ← read_moderation_request decode received
      moderate_request k request.0 v
