-- ===== src/Registry/Revocation.antt =====
-- What a client key gives after it is rotated, revoked or deleted (internal/audit/store.go,
-- key_lifecycle.go, keys.go).
use deepseek_moderation_api.Prelude.{
  ℕ, ◌≡◌, refl, ◌∙◌, Bool, true, false, not, ◌&&◌, List, [], ◌∷◌, Option, none, some, String,
  str_eq, arith, ◌⊎◌, inl, inr, All, Result, ok, err, Ensures, refuse_if-Ensures, Bool-cases, ◌==◌,
  if◌then◌else◌, problem,
}
use mathlib.Core.Path.{subst}
use deepseek_moderation_api.Registry.Tables.{
  KeyRow, Registry, has_row, find_row, update_row, finish_transaction, mutate, revision_conflict,
}
use deepseek_moderation_api.Registry.Keys.{
  unless_deleted, live_key, new_token, revoke, tombstone, rotate_found, rotate_key, revoke_found,
  revoke_key, tombstone_found, delete_key, not_expired, find_token, authenticate_key,
}
use deepseek_moderation_api.Registry.Rows.{has_row-update_row, find_row-has_row}
use deepseek_moderation_api.Policy.Settings.{PolicySettings}
use deepseek_moderation_api.Policy.Candidates.{Environment}
use deepseek_moderation_api.Registry.Commands.{
  Command, credential_create, credential_update, credential_delete, channel_create, channel_save,
  channel_delete, channel_cache_clear, policy_create, policy_import, policy_save, policy_state,
  policy_archive, policy_delete, key_create, key_update, key_rotate, key_revoke, key_delete,
  action_of, transaction, run_command,
}

-- The commands that withdraw the token of a key, with the token that replaces it.
abbrev pub withdrawal : Command → Option (String × Option String)
withdrawal (key_rotate id revision hash) = some (id, some hash)
withdrawal (key_revoke id) = some (id, none)
withdrawal (key_delete id hash) = some (id, none)
withdrawal c = none

-- A token of the key that is accepted is the one that replaces the withdrawn one.
abbrev pub IsWithdrawn : String → Option String → KeyRow → Type 0
IsWithdrawn id replacement k =
    str_eq k.id id ≡ true → (k.active && not k.deleted) ≡ true → replacement ≡ some k.token_hash

-- The key is in the table, with its token withdrawn.
abbrev pub IsMarked : String → Option String → List KeyRow → Type 0
IsMarked id replacement ks =
    (has_row (λ k. k.id) id ks ≡ true) × All (IsWithdrawn id replacement) ks

abbrev Marks : String → Option String → Result Registry → Type 0
Marks id replacement after = Ensures (λ (g : Registry). IsMarked id replacement g.keys) after

abbrev Withdraws : Option (String × Option String) → Result Registry → Type 0
Withdraws none after = Unit {0}
Withdraws (some (id, replacement)) after = Marks id replacement after

update_row-IsWithdrawn :
    (id : String) (replacement : Option String) (edit : KeyRow → KeyRow) (ks : List KeyRow)
    → ((k : KeyRow)
        → ((edit k).active && not (edit k).deleted) ≡ true
        → replacement ≡ some (edit k).token_hash)
    → All (IsWithdrawn id replacement) (update_row (λ k. k.id) id edit ks)
unfolding update_row
update_row-IsWithdrawn id replacement edit [] w = tt
update_row-IsWithdrawn id replacement edit (k ∷ ks) w = elim (Bool-cases (str_eq k.id id)) [
  | inl hit ↦ rw hit (λ same. w k, update_row-IsWithdrawn id replacement edit ks w)
  | inr other ↦
      rw other (λ same live. absurd (ground arith), update_row-IsWithdrawn id replacement edit ks w)
]

live_key-has_row :
    (id : String) (g : Registry) (k : KeyRow)
    → live_key id g ≡ some k
    → has_row (λ k. k.id) id g.keys ≡ true
live_key-has_row id g k e = found (find_row (λ k. k.id) id g.keys) refl e
  where
    found :
        (o : Option KeyRow)
        → find_row (λ k. k.id) id g.keys ≡ o
        → unless_deleted o ≡ some k
        → has_row (λ k. k.id) id g.keys ≡ true
    found none at live = cc
    found (some r) at live = find_row-has_row (λ k. k.id) id g.keys r at

-- An edit of a live key that withdraws its token.
edited-IsMarked :
    (id : String) (replacement : Option String) (edit : KeyRow → KeyRow) (g : Registry) (k : KeyRow)
    → ((k : KeyRow) → (edit k).id ≡ k.id)
    → ((k : KeyRow)
        → ((edit k).active && not (edit k).deleted) ≡ true
        → replacement ≡ some (edit k).token_hash)
    → live_key id g ≡ some k
    → IsMarked id replacement (update_row (λ k. k.id) id edit g.keys)
edited-IsMarked id replacement edit g k keep w live = (
  has_row-update_row (λ k. k.id) id id edit g.keys (λ r hit. keep r) ∙ live_key-has_row id g k live,
  update_row-IsWithdrawn id replacement edit g.keys w,
)

rotate_found-Marks :
    (id : String) (revision : ℕ) (hash : String) (k : Option KeyRow) (g : Registry)
    → live_key id g ≡ k
    → Marks id (some hash) (rotate_found id revision hash k g)
unfolding rotate_found
rotate_found-Marks id revision hash none g live = tt
rotate_found-Marks id revision hash (some k) g live =
    refuse_if-Ensures (λ (g : Registry). IsMarked id (some hash) g.keys)
      (not (k.revision == revision)) revision_conflict _
      (λ current.
        edited-IsMarked id (some hash) (new_token hash) g k (λ r. refl) (λ r on. refl) live)

revoke_found-Marks :
    (id : String) (k : Option KeyRow) (g : Registry)
    → live_key id g ≡ k
    → Marks id none (revoke_found id k g)
unfolding revoke_found
revoke_found-Marks id none g live = tt
revoke_found-Marks id (some k) g live =
    edited-IsMarked id none revoke g k (λ r. refl) (λ r on. absurd (ground arith)) live

tombstone_found-Marks :
    (id hash : String) (k : Option KeyRow) (g : Registry)
    → live_key id g ≡ k
    → Marks id none (tombstone_found id hash k g)
unfolding tombstone_found
tombstone_found-Marks id hash none g live = tt
tombstone_found-Marks id hash (some k) g live =
    edited-IsMarked id none (tombstone hash) g k (λ r. refl) (λ r on. absurd (ground arith)) live

first-some :
    {A : Type 0} (b : Bool) (x y : A) (rest : Option A)
    → (if b then some x else rest) ≡ some y
    → ((b ≡ true) × (x ≡ y)) ⊎ (rest ≡ some y)
first-some true x y rest e = inl (refl, cc)
first-some false x y rest e = inr e

-- A token is accepted by a row that has its digest, is active, and is neither deleted nor expired.
abbrev pub Accepts : String → (now : ℕ) → KeyRow → Type 0
Accepts hash now k =
    (str_eq k.token_hash hash ≡ true)
    × ((k.active && not k.deleted) ≡ true)
    × (not_expired k.expires_at now ≡ true)

find_token-Accepts :
    (P : KeyRow → Type 0) (hash : String) (now : ℕ) (ks : List KeyRow) (k : KeyRow)
    → All P ks
    → find_token hash now ks ≡ some k
    → P k × Accepts hash now k
unfolding find_token
find_token-Accepts P hash now [] k a e = cc
find_token-Accepts P hash now (x ∷ ks) k a e =
    elim (first-some
      (str_eq x.token_hash hash && x.active && not x.deleted && not_expired x.expires_at now) x k
      (find_token hash now ks) e) [
        | inl (hit, same) ↦
            subst (λ y. P y × Accepts hash now y) same
              (a.0, (ground arith, ground arith, ground arith))
        | inr rest ↦ find_token-Accepts P hash now ks k a.1 rest
      ]

pub authenticate_key-Accepts :
    (P : KeyRow → Type 0) (hash : String) (now : ℕ) (g : Registry) (k : KeyRow)
    → All P g.keys
    → authenticate_key hash now g ≡ ok k
    → P k × Accepts hash now k
unfolding authenticate_key
authenticate_key-Accepts P hash now g k a e =
    find_token-Accepts P hash now g.keys k a (found (find_token hash now g.keys) e)
  where
    found :
        (o : Option KeyRow)
        → (elim o [ none ↦ err (problem 401 "invalid_api_key") | some k ↦ ok k ]) ≡ ok k
        → o ≡ some k
    found none e' = cc
    found (some x) e' = cc

module _ (env : Environment) (defaults : PolicySettings) where
  transaction-Withdraws :
      (c : Command) (g : Registry) → Withdraws (withdrawal c) (transaction env defaults c g)
  unfolding transaction rotate_key revoke_key delete_key
  transaction-Withdraws (credential_create id f) g = tt
  transaction-Withdraws (credential_update id f epoch) g = tt
  transaction-Withdraws (credential_delete id) g = tt
  transaction-Withdraws (channel_create c) g = tt
  transaction-Withdraws (channel_save c) g = tt
  transaction-Withdraws (channel_delete id) g = tt
  transaction-Withdraws (channel_cache_clear id epoch) g = tt
  transaction-Withdraws (policy_create id name alias s) g = tt
  transaction-Withdraws (policy_import id version name alias s) g = tt
  transaction-Withdraws (policy_save id name revision s) g = tt
  transaction-Withdraws (policy_state id revision enabled) g = tt
  transaction-Withdraws (policy_archive id revision archived running) g = tt
  transaction-Withdraws (policy_delete id running) g = tt
  transaction-Withdraws (key_create id hash now name ids rpm expires_at) g = tt
  transaction-Withdraws (key_update id revision f) g = tt
  transaction-Withdraws (key_rotate id revision hash) g =
      rotate_found-Marks id revision hash (live_key id g) g refl
  transaction-Withdraws (key_revoke id) g = revoke_found-Marks id (live_key id g) g refl
  transaction-Withdraws (key_delete id hash) g =
      tombstone_found-Marks id hash (live_key id g) g refl

  withdrawing-Marks :
      (c : Command) (id : String) (replacement : Option String) (g : Registry)
      → withdrawal c ≡ some (id, replacement)
      → Marks id replacement (transaction env defaults c g)
  withdrawing-Marks c id replacement g w =
      subst (λ x. Withdraws x (transaction env defaults c g)) w (transaction-Withdraws c g)

  committed-IsMarked :
      (id : String) (replacement : Option String) (commit : Result (Unit {0})) (action : String)
      (g : Registry) (after : Result Registry)
      → Marks id replacement after
      → (finish_transaction commit action g after).1 ≡ ok tt
      → IsMarked id replacement (finish_transaction commit action g after).0.keys
  unfolding finish_transaction
  committed-IsMarked id replacement commit action g (err e) w s = cc
  committed-IsMarked id replacement (err e) action g (ok g') w s = cc
  committed-IsMarked id replacement (ok u) action g (ok g') w s = w

  pub withdrawing-IsMarked :
      (c : Command) (id : String) (replacement : Option String) (commit : Result (Unit {0}))
      (g : Registry)
      → withdrawal c ≡ some (id, replacement)
      → (run_command env defaults commit c g).1 ≡ ok tt
      → IsMarked id replacement (run_command env defaults commit c g).0.keys
  unfolding mutate
  withdrawing-IsMarked c id replacement commit g w =
      committed-IsMarked id replacement commit (action_of c) g (transaction env defaults c g)
        (withdrawing-Marks c id replacement g w)
