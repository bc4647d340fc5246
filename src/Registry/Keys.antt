-- ===== src/Registry/Keys.antt =====
-- Client keys: CreateKey, RevokeKey, AuthenticateKey (internal/audit/store.go), UpdateKey, RotateKey
-- (key_lifecycle.go), DeleteKey (keys.go). The digests of tokens are arguments.
use deepseek_moderation_api.Prelude.{
  ℕ, ◌+◌, Bool, true, false, not, ◌&&◌, ◌||◌, List, [], ◌∷◌, Option, none, some, String, str_eq,
  ltb, leb, ◌==◌, if◌then◌else◌, any, all, length, Result, ok, err, problem, ◌>>=◌, ◌>>◌, refuse_if,
}
use deepseek_moderation_api.Prelude.Int.{ℤ}
use deepseek_moderation_api.Text.{utf8_length}
use deepseek_moderation_api.Keywords.{is_blank}
use deepseek_moderation_api.Policy.Config.{within}
use deepseek_moderation_api.Registry.Tables.{
  KeyRow, Registry, not_found, revision_conflict, has_row, find_row, update_row, insert_row,
}

abbrev pub is_policy : Registry → String → Bool
is_policy g id = has_row (λ p. p.id) id g.policies

abbrev pub new_key :
    (id token_hash : String)
    → (name : List ℕ) → (policy_ids : List String) → (rpm : ℤ) → (expires_at : Option ℕ) → KeyRow
new_key id token_hash name policy_ids rpm expires_at = record {
  id = id;
  name = name;
  policy_ids = policy_ids;
  rpm = rpm;
  active = true;
  expires_at = expires_at;
  token_hash = token_hash;
  revision = 1;
  deleted = false;
}

abbrev pub not_expired : Option ℕ → (now : ℕ) → Bool
not_expired none now = true
not_expired (some at) now = ltb now at

-- The checks of `createKey` before the transaction.
unfoldable pub check_new_key :
    (now : ℕ)
    → (name : List ℕ) → (policy_ids : List String) → (rpm : ℤ) → (expires_at : Option ℕ)
    → Result (Unit {0})
check_new_key now name policy_ids rpm expires_at = do
  refuse_if
      (is_blank name
        || ltb 200 (utf8_length name)
        || length policy_ids == 0
        || ltb 100 (length policy_ids)
        || not (within 1 10000 rpm))
      (problem 400 "invalid_key_config")
  refuse_if (not (not_expired expires_at now)) (problem 400 "invalid_expiry")

unfoldable pub create_key :
    (id token_hash : String)
    → (now : ℕ) → (name : List ℕ) → (policy_ids : List String) → (rpm : ℤ) → (expires_at : Option ℕ)
    → Registry
    → Result Registry
unfolding check_new_key
create_key id token_hash now name policy_ids rpm expires_at g = do
  check_new_key now name policy_ids rpm expires_at
  refuse_if (not (all (is_policy g) policy_ids)) (problem 400 "invalid_policy")
  rows ← insert_row (λ k. k.id) (new_key id token_hash name policy_ids rpm expires_at) g.keys
  ok (record g { keys = rows })

-- What a deleted key's id finds: nothing.
abbrev pub unless_deleted : Option KeyRow → Option KeyRow
unless_deleted none = none
unless_deleted (some k) = if k.deleted then none else some k

abbrev pub live_key : String → Registry → Option KeyRow
live_key id g = unless_deleted (find_row (λ k. k.id) id g.keys)

pub record KeyForm : Type 0 where
  pub name : List ℕ
  pub policy_ids : List String
  pub rpm : ℤ
  pub active : Bool
  pub expires_at : Option ℕ

abbrev pub edit_key : KeyForm → KeyRow → KeyRow
edit_key f k = record k {
  name = f.name;
  policy_ids = f.policy_ids;
  rpm = f.rpm;
  active = f.active;
  expires_at = f.expires_at;
  revision = k.revision + 1;
}

abbrev pub new_token : (token_hash : String) → KeyRow → KeyRow
new_token token_hash k = record k { token_hash = token_hash; revision = k.revision + 1 }

abbrev pub revoke : KeyRow → KeyRow
revoke k = record k { active = false; revision = k.revision + 1 }

abbrev pub tombstone : (token_hash : String) → KeyRow → KeyRow
tombstone token_hash k = record k {
  active = false;
  deleted = true;
  token_hash = token_hash;
  revision = k.revision + 1;
}

-- The loop over the policies, with those seen so far.
unfoldable pub policies_valid : Registry → (seen : List String) → List String → Bool
policies_valid g seen [] = true
policies_valid g seen (id ∷ ids) =
    not (any (str_eq id) seen) && is_policy g id && policies_valid g (id ∷ seen) ids

unfoldable pub form_valid : KeyForm → Bool
form_valid f =
    not (is_blank f.name)
    && leb (utf8_length f.name) 200
    && leb (length f.policy_ids) 100
    && not (f.active && length f.policy_ids == 0)
    && within 1 10000 f.rpm

unfoldable pub update_found :
    String → (revision : ℕ) → KeyForm → Option KeyRow → Registry → Result Registry
update_found id revision f none g = err not_found
update_found id revision f (some k) g = do
  refuse_if (not (k.revision == revision)) revision_conflict
  refuse_if (not (policies_valid g [] f.policy_ids)) (problem 400 "invalid_policy")
  ok (record g { keys = update_row (λ k. k.id) id (edit_key f) g.keys })

unfoldable pub update_key : String → (revision : ℕ) → KeyForm → Registry → Result Registry
unfolding form_valid update_found
update_key id revision f g = do
  refuse_if (not (form_valid f)) (problem 400 "invalid_key_config")
  update_found id revision f (live_key id g) g

unfoldable pub rotate_found :
    String → (revision : ℕ) → (token_hash : String) → Option KeyRow → Registry → Result Registry
rotate_found id revision token_hash none g = err not_found
rotate_found id revision token_hash (some k) g = do
  refuse_if (not (k.revision == revision)) revision_conflict
  ok (record g { keys = update_row (λ k. k.id) id (new_token token_hash) g.keys })

unfoldable pub rotate_key :
    String → (revision : ℕ) → (token_hash : String) → Registry → Result Registry
unfolding rotate_found
rotate_key id revision token_hash g = rotate_found id revision token_hash (live_key id g) g

unfoldable pub revoke_found : String → Option KeyRow → Registry → Result Registry
revoke_found id none g = err not_found
revoke_found id (some k) g = ok (record g { keys = update_row (λ k. k.id) id revoke g.keys })

unfoldable pub revoke_key : String → Registry → Result Registry
unfolding revoke_found
revoke_key id g = revoke_found id (live_key id g) g

unfoldable pub tombstone_found :
    String → (token_hash : String) → Option KeyRow → Registry → Result Registry
tombstone_found id token_hash none g = err not_found
tombstone_found id token_hash (some k) g =
    ok (record g { keys = update_row (λ k. k.id) id (tombstone token_hash) g.keys })

-- `token_hash` is that of a fresh token, which nobody has.
unfoldable pub delete_key : String → (token_hash : String) → Registry → Result Registry
unfolding tombstone_found
delete_key id token_hash g = tombstone_found id token_hash (live_key id g) g

unfoldable pub find_token : (token_hash : String) → (now : ℕ) → List KeyRow → Option KeyRow
find_token token_hash now [] = none
find_token token_hash now (k ∷ ks) =
    let rest = find_token token_hash now ks in
    if str_eq k.token_hash token_hash && k.active && not k.deleted && not_expired k.expires_at now
    then some k
    else rest

unfoldable pub authenticate_key : (token_hash : String) → (now : ℕ) → Registry → Result KeyRow
unfolding find_token
authenticate_key token_hash now g = elim (find_token token_hash now g.keys) [
  | none ↦ err (problem 401 "invalid_api_key")
  | some k ↦ ok k
]
