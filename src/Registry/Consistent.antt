-- ===== src/Registry/Consistent.antt =====
-- The references between the tables (internal/audit/store.go, channels.go, policy_lifecycle.go).
pub mod Credentials
pub mod Channels
pub mod Policies
pub mod Keys
use deepseek_moderation_api.Prelude.{◌≡◌, Bool, true, false, ◌&&◌, List, String, any, All, All-map}
use deepseek_moderation_api.Policy.Settings.{ChannelBinding, bindings}
use deepseek_moderation_api.Registry.Keyed.{IsKeyed}
use deepseek_moderation_api.Registry.Tables.{
  CredentialRow, ChannelRow, PolicyRow, KeyRow, Registry, has_row,
}

abbrev pub has_channel : List ChannelRow → String → Bool
has_channel channels id = has_row (λ c. c.id) id channels

abbrev pub has_credential : List CredentialRow → String → Bool
has_credential credentials id = has_row (λ k. k.id) id credentials

abbrev pub has_policy : List PolicyRow → String → Bool
has_policy policies id = has_row (λ p. p.id) id policies

-- Each channel that the policy binds exists.
abbrev pub IsBound : List ChannelRow → PolicyRow → Type 0
IsBound channels p = All (λ b. has_channel channels b.channel_id ≡ true) (bindings p.config)

-- An archived policy is not enabled.
abbrev pub IsIdle : PolicyRow → Type 0
IsIdle p = (p.archived && p.enabled) ≡ false

abbrev pub IsConnected : List CredentialRow → ChannelRow → Type 0
IsConnected credentials c = has_credential credentials c.credential_id ≡ true

-- Each policy that a key which is not deleted may use exists.
abbrev pub IsGranted : List PolicyRow → KeyRow → Type 0
IsGranted policies k = k.deleted ≡ false → All (λ id. has_policy policies id ≡ true) k.policy_ids

pub record IsConsistent (g : Registry) : Type 0 where
  pub bound : All (IsBound g.channels) g.policies
  pub keyed : IsKeyed (λ p. p.id) g.policies
  pub idle : All IsIdle g.policies
  pub connected : All (IsConnected g.credentials) g.channels
  pub granted : All (IsGranted g.policies) g.keys

-- A change of one table that keeps what the others refer to.
pub with_credentials :
    (g : Registry) (rows : List CredentialRow)
    → All (IsConnected rows) g.channels
    → IsConsistent g
    → IsConsistent (record g { credentials = rows })
with_credentials g rows c h = record {
  bound = h.bound;
  keyed = h.keyed;
  idle = h.idle;
  connected = c;
  granted = h.granted;
}

pub with_channels :
    (g : Registry) (rows : List ChannelRow)
    → All (IsBound rows) g.policies
    → All (IsConnected g.credentials) rows
    → IsConsistent g
    → IsConsistent (record g { channels = rows })
with_channels g rows b c h = record {
  bound = b;
  keyed = h.keyed;
  idle = h.idle;
  connected = c;
  granted = h.granted;
}

pub with_policies :
    (g : Registry) (rows : List PolicyRow)
    → All (IsBound g.channels) rows
    → IsKeyed (λ p. p.id) rows
    → All IsIdle rows
    → All (IsGranted rows) g.keys
    → IsConsistent g
    → IsConsistent (record g { policies = rows })
with_policies g rows b k i a h = record {
  bound = b;
  keyed = k;
  idle = i;
  connected = h.connected;
  granted = a;
}

pub with_keys :
    (g : Registry) (rows : List KeyRow)
    → All (IsGranted g.policies) rows
    → IsConsistent g
    → IsConsistent (record g { keys = rows })
with_keys g rows k h = record {
  bound = h.bound;
  keyed = h.keyed;
  idle = h.idle;
  connected = h.connected;
  granted = k;
}

-- More channels, or more policies, bind and grant as well.
pub more_channels :
    (g : Registry) (rows : List ChannelRow)
    → ((id : String) → has_channel g.channels id ≡ true → has_channel rows id ≡ true)
    → IsConsistent g
    → All (IsBound rows) g.policies
more_channels g rows more h =
    All-map (IsBound g.channels) (IsBound rows) g.policies
      (λ p b. All-map _ _ (bindings p.config) (λ x. more x.channel_id) b) h.bound

pub more_policies :
    (g : Registry) (rows : List PolicyRow)
    → ((id : String) → has_policy g.policies id ≡ true → has_policy rows id ≡ true)
    → IsConsistent g
    → All (IsGranted rows) g.keys
more_policies g rows more h =
    All-map (IsGranted g.policies) (IsGranted rows) g.keys
      (λ k a live. All-map _ _ k.policy_ids more (a live)) h.granted
