-- ===== src/Moderate/Allowed.antt =====
-- What a request has passed when it is audited (internal/audit/server.go, channels.go).
use deepseek_moderation_api.Prelude.{
  ℕ, ◌≤◌, ◌≡◌, true, false, List, String, str_eq, any, length, All,
}
use deepseek_moderation_api.Policy.Settings.{PolicySettings, bindings, validate_settings}
use deepseek_moderation_api.Policy.Candidates.{Environment}
use deepseek_moderation_api.Registry.Tables.{ChannelRow, PolicyRow, Registry, has_row}
use deepseek_moderation_api.Registry.Revocation.{Accepts}
use deepseek_moderation_api.ModerationInput.{AuditImage}
use deepseek_moderation_api.ModerationInput.Accepted.{IsFull}
use deepseek_moderation_api.Moderate.{ModerationCall}

-- The policy binds the channel, and the channel has a credential.
abbrev pub IsBoundBy : Registry → PolicySettings → ChannelRow → Type 0
IsBoundBy g s c =
    (any (λ b. str_eq b.channel_id c.id) (bindings s) ≡ true)
    × (has_row (λ k. k.id) c.credential_id g.credentials ≡ true)

module _ (env : Environment) where
  -- The policy of this id, not archived and valid, with the channels that it binds.
  abbrev pub IsServed : (id : String) → Registry → PolicyRow → List ChannelRow → Type 0
  IsServed id g p channels =
      (p.id ≡ id)
      × (p.archived ≡ false)
      × (validate_settings env.parse env.origins env.one p.config ≡ true)
      × (length channels ≡ length (bindings p.config))
      × All (IsBoundBy g p.config) channels

-- What the input is at most.
abbrev pub IsBounded : (max_images : ℕ) → List ℕ → List AuditImage → Type 0
IsBounded max_images text images =
    (length text ≤ 64000) × (length images ≤ max_images) × IsFull text images

-- The client's key may use the policy, which is enabled, and the input is bounded.
abbrev pub IsAllowed :
    Environment
    → (max_images : ℕ) → (hash : String) → (now : ℕ) → Registry
    → ModerationCall
    → Type 0
IsAllowed env max_images hash now g call =
    Accepts hash now call.key
    × (any (str_eq call.policy.id) call.key.policy_ids ≡ true)
    × (call.policy.enabled ≡ true)
    × IsServed env call.policy.id g call.policy call.channels
    × IsBounded max_images call.text call.images
