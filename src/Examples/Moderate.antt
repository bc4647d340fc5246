-- ===== src/Examples/Moderate.antt =====
-- A request of the client of the forum: internal/audit/server.go.
use deepseek_moderation_api.Prelude.{ℕ, List, [], ◌∷◌}
use deepseek_moderation_api.Text.{codes, join}
use deepseek_moderation_api.Moderate.{ModerationCall, Views}
use deepseek_moderation_api.Examples.Registry.{channel, policy, key, registry}
use deepseek_moderation_api.Examples.ModerationInput.{hello, picture}

abbrev header : List ℕ
header = codes "Bearer dsa_token"

abbrev views : Views
views = record { authenticated = registry; aliased = registry; snapshot = registry }

abbrev call : ModerationCall
call = record {
  key = key;
  policy = policy "forum";
  channels = channel "primary" ∷ channel "backup" ∷ [];
  text = join 10 (hello ∷ hello ∷ []);
  images = picture ∷ [];
}
