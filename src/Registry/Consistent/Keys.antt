-- ===== src/Registry/Consistent/Keys.antt =====
-- Client keys keep the references (internal/audit/store.go, key_lifecycle.go, keys.go).
use deepseek_moderation_api.Prelude.{
  ℕ, ◌≡◌, true, not, List, [], ◌∷◌, ◌++◌, Option, none, some, String, arith, all, ◌==◌, All,
  All-snoc, ok, problem, Ensures, >>=-Ensures, refuse_if-Ensures,
}
use deepseek_moderation_api.Prelude.Int.{ℤ}
use deepseek_moderation_api.Registry.Tables.{KeyRow, Registry, update_row, revision_conflict}
use deepseek_moderation_api.Registry.Rows.{update_row-All, insert_row-Ensures, all-All}
use deepseek_moderation_api.Registry.Keys.{
  is_policy, new_key, check_new_key, create_key, live_key, KeyForm, edit_key, new_token, revoke,
  tombstone, policies_valid, form_valid, update_found, update_key, rotate_found, rotate_key,
  revoke_found, revoke_key, tombstone_found, delete_key,
}
use deepseek_moderation_api.Registry.Consistent.{has_policy, IsGranted, IsConsistent, with_keys}

policies_valid-All :
    (g : Registry) (seen ids : List String)
    → policies_valid g seen ids ≡ true
    → All (λ id. has_policy g.policies id ≡ true) ids
unfolding policies_valid
policies_valid-All g seen [] v = tt
policies_valid-All g seen (id ∷ ids) v =
    (ground arith, policies_valid-All g (id ∷ seen) ids (ground arith))

pub create_key-IsConsistent :
    (id token_hash : String) (now : ℕ) (name : List ℕ) (policy_ids : List String) (rpm : ℤ)
    (expires_at : Option ℕ) (g : Registry)
    → IsConsistent g
    → Ensures IsConsistent (create_key id token_hash now name policy_ids rpm expires_at g)
unfolding create_key
create_key-IsConsistent id token_hash now name policy_ids rpm expires_at g h =
    let row = new_key id token_hash name policy_ids rpm expires_at in
    >>=-Ensures IsConsistent (check_new_key now name policy_ids rpm expires_at) _ (λ u checked.
      refuse_if-Ensures IsConsistent (not (all (is_policy g) policy_ids))
        (problem 400 "invalid_policy") _
        (λ valid.
          insert_row-Ensures (λ k. k.id) IsConsistent row g.keys
            (λ rows. ok (record g { keys = rows }))
            (λ fresh.
              with_keys g (g.keys ++ row ∷ [])
                (All-snoc (IsGranted g.policies) g.keys row h.granted
                  (λ live. all-All (is_policy g) policy_ids (ground arith)))
                h)))

-- An edit of a key, after which it refers to policies.
edited_key :
    (g : Registry) (id : String) (edit : KeyRow → KeyRow)
    → ((r : KeyRow) → IsGranted g.policies r → IsGranted g.policies (edit r))
    → IsConsistent g
    → IsConsistent (record g { keys = update_row (λ k. k.id) id edit g.keys })
edited_key g id edit keep h =
    with_keys g (update_row (λ k. k.id) id edit g.keys)
      (update_row-All (λ k. k.id) (IsGranted g.policies) id edit g.keys (λ r hit. keep r) h.granted)
      h

update_found-IsConsistent :
    (id : String) (revision : ℕ) (f : KeyForm) (k : Option KeyRow) (g : Registry)
    → IsConsistent g
    → Ensures IsConsistent (update_found id revision f k g)
unfolding update_found
update_found-IsConsistent id revision f none g h = tt
update_found-IsConsistent id revision f (some k) g h =
    refuse_if-Ensures IsConsistent (not (k.revision == revision)) revision_conflict _ (λ current.
      refuse_if-Ensures IsConsistent (not (policies_valid g [] f.policy_ids))
        (problem 400 "invalid_policy") _
        (λ valid.
          edited_key g id (edit_key f)
            (λ r old live. policies_valid-All g [] f.policy_ids (ground arith)) h))

pub update_key-IsConsistent :
    (id : String) (revision : ℕ) (f : KeyForm) (g : Registry)
    → IsConsistent g
    → Ensures IsConsistent (update_key id revision f g)
unfolding update_key
update_key-IsConsistent id revision f g h =
    refuse_if-Ensures IsConsistent (not (form_valid f)) (problem 400 "invalid_key_config") _
      (λ valid. update_found-IsConsistent id revision f (live_key id g) g h)

rotate_found-IsConsistent :
    (id : String) (revision : ℕ) (token_hash : String) (k : Option KeyRow) (g : Registry)
    → IsConsistent g
    → Ensures IsConsistent (rotate_found id revision token_hash k g)
unfolding rotate_found
rotate_found-IsConsistent id revision token_hash none g h = tt
rotate_found-IsConsistent id revision token_hash (some k) g h =
    refuse_if-Ensures IsConsistent (not (k.revision == revision)) revision_conflict _
      (λ current. edited_key g id (new_token token_hash) (λ r old. old) h)

pub rotate_key-IsConsistent :
    (id : String) (revision : ℕ) (token_hash : String) (g : Registry)
    → IsConsistent g
    → Ensures IsConsistent (rotate_key id revision token_hash g)
unfolding rotate_key
rotate_key-IsConsistent id revision token_hash g h =
    rotate_found-IsConsistent id revision token_hash (live_key id g) g h

revoke_found-IsConsistent :
    (id : String) (k : Option KeyRow) (g : Registry)
    → IsConsistent g
    → Ensures IsConsistent (revoke_found id k g)
unfolding revoke_found
revoke_found-IsConsistent id none g h = tt
revoke_found-IsConsistent id (some k) g h = edited_key g id revoke (λ r old. old) h

pub revoke_key-IsConsistent :
    (id : String) (g : Registry) → IsConsistent g → Ensures IsConsistent (revoke_key id g)
unfolding revoke_key
revoke_key-IsConsistent id g h = revoke_found-IsConsistent id (live_key id g) g h

tombstone_found-IsConsistent :
    (id token_hash : String) (k : Option KeyRow) (g : Registry)
    → IsConsistent g
    → Ensures IsConsistent (tombstone_found id token_hash k g)
unfolding tombstone_found
tombstone_found-IsConsistent id token_hash none g h = tt
tombstone_found-IsConsistent id token_hash (some k) g h =
    edited_key g id (tombstone token_hash) (λ r old live. absurd (ground arith)) h

pub delete_key-IsConsistent :
    (id token_hash : String) (g : Registry)
    → IsConsistent g
    → Ensures IsConsistent (delete_key id token_hash g)
unfolding delete_key
delete_key-IsConsistent id token_hash g h =
    tombstone_found-IsConsistent id token_hash (live_key id g) g h
