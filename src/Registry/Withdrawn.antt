-- ===== src/Registry/Withdrawn.antt =====
-- A withdrawn token under the commands that follow (internal/audit/store.go, key_lifecycle.go,
-- keys.go).
use deepseek_moderation_api.Prelude.{
  ℕ, ◌≡◌, refl, sym, ap, ◌∙◌, Bool, true, false, not, List, [], ◌∷◌, Option, none, some, String,
  str_eq, eq_iff, arith, All, All-snoc, Result, ok, err, problem, >>=-Ensures, refuse_if-Ensures,
  ◌==◌, all,
}
use deepseek_moderation_api.Prelude.Int.{ℤ}
use deepseek_moderation_api.Policy.Settings.{PolicySettings}
use deepseek_moderation_api.Policy.Candidates.{Environment}
use deepseek_moderation_api.Registry.Tables.{
  KeyRow, Registry, has_row, update_row, finish_transaction, mutate, revision_conflict,
}
use deepseek_moderation_api.Registry.Rows.{
  update_row-All, has_row-update_row, has_row-append, insert_row-Ensures,
}
use deepseek_moderation_api.Registry.Keys.{
  KeyForm, is_policy, new_key, check_new_key, create_key, live_key, edit_key, new_token, revoke,
  tombstone, policies_valid, form_valid, update_found, update_key, rotate_found, rotate_key,
  revoke_found, revoke_key, tombstone_found, delete_key, authenticate_key,
}
use deepseek_moderation_api.Registry.Commands.{
  Command, credential_create, credential_update, credential_delete, channel_create, channel_save,
  channel_delete, channel_cache_clear, policy_create, policy_import, policy_save, policy_state,
  policy_archive, policy_delete, key_create, key_update, key_rotate, key_revoke, key_delete,
  action_of, transaction, run_command, run_commands,
}
use deepseek_moderation_api.Registry.OtherTables.{
  Leaves, create_credential-Leaves, save_credential-Leaves, delete_credential-Leaves,
  create_channel-Leaves, save_channel-Leaves, delete_channel-Leaves, clear_channel_cache-Leaves,
  create_policy-Leaves, import_policy-Leaves, save_config-Leaves, set_policy_state-Leaves,
  archive_policy-Leaves, delete_policy-Leaves,
}
use deepseek_moderation_api.Registry.Revocation.{
  withdrawal, IsWithdrawn, IsMarked, Accepts, authenticate_key-Accepts, withdrawing-IsMarked,
}

-- The commands that may give the key a token again: an edit, which may enable it, and a rotation.
abbrev pub renews : String → Command → Bool
renews id (key_update id' revision f) = str_eq id' id
renews id (key_rotate id' revision hash) = str_eq id' id
renews id c = false

module _ (id : String) (replacement : Option String) where
  abbrev Keeps : Result Registry → Type 0
  Keeps after = Leaves (IsMarked id replacement) after

  abbrev OfMarked : Registry → Type 0
  OfMarked g = IsMarked id replacement g.keys

  edited_row-IsMarked :
      (id' : String) (edit : KeyRow → KeyRow) (ks : List KeyRow)
      → ((k : KeyRow) → (edit k).id ≡ k.id)
      → ((k : KeyRow)
          → str_eq k.id id' ≡ true
          → IsWithdrawn id replacement k
          → IsWithdrawn id replacement (edit k))
      → IsMarked id replacement ks
      → IsMarked id replacement (update_row (λ k. k.id) id' edit ks)
  edited_row-IsMarked id' edit ks same keep (there, w) = (
    has_row-update_row (λ k. k.id) id id' edit ks (λ r hit. same r) ∙ there,
    update_row-All (λ k. k.id) (IsWithdrawn id replacement) id' edit ks keep w,
  )

  -- An edit of another key.
  elsewhere :
      (id' : String) (edit : KeyRow → KeyRow)
      → str_eq id' id ≡ false
      → ((k : KeyRow) → (edit k).id ≡ k.id)
      → (k : KeyRow) → str_eq k.id id' ≡ true
      → IsWithdrawn id replacement k
      → IsWithdrawn id replacement (edit k)
  elsewhere id' edit other keep k hit w same live =
      let one = (eq_iff k.id id').0 hit in
      let two = (eq_iff (edit k).id id).0 same in
      let mixed = (eq_iff id' id).1 (sym one ∙ sym (keep k) ∙ two) in absurd (ground arith)

  create_key-Keeps :
      (id' hash : String) (now : ℕ) (name : List ℕ) (policy_ids : List String) (rpm : ℤ)
      (expires_at : Option ℕ) (g : Registry)
      → OfMarked g
      → Keeps (create_key id' hash now name policy_ids rpm expires_at g)
  unfolding create_key
  create_key-Keeps id' hash now name policy_ids rpm expires_at g (there, w) =
      let row = new_key id' hash name policy_ids rpm expires_at in
      >>=-Ensures OfMarked (check_new_key now name policy_ids rpm expires_at) _ (λ u checked.
        refuse_if-Ensures OfMarked (not (all (is_policy g) policy_ids))
          (problem 400 "invalid_policy") _
          (λ valid.
            insert_row-Ensures (λ k. k.id) OfMarked row g.keys
              (λ rows. ok (record g { keys = rows }))
              (λ fresh. (
                has_row-append (λ k. k.id) id g.keys row there,
                All-snoc (IsWithdrawn id replacement) g.keys row w
                    (λ same live. absurd (taken ((eq_iff id' id).0 same) fresh)),
              ))))
    where
      taken : id' ≡ id → has_row (λ k. k.id) id' g.keys ≡ false → ⊥
      taken same fresh = let fresh' : has_row (λ k. k.id) id g.keys ≡ false = rw same at fresh in cc

  update_found-Keeps :
      (id' : String) (revision : ℕ) (f : KeyForm) (k : Option KeyRow) (g : Registry)
      → str_eq id' id ≡ false
      → OfMarked g
      → Keeps (update_found id' revision f k g)
  unfolding update_found
  update_found-Keeps id' revision f none g other m = tt
  update_found-Keeps id' revision f (some k) g other m =
      refuse_if-Ensures OfMarked (not (k.revision == revision)) revision_conflict _ (λ current.
        refuse_if-Ensures OfMarked (not (policies_valid g [] f.policy_ids))
          (problem 400 "invalid_policy") _
          (λ valid.
            edited_row-IsMarked id' (edit_key f) g.keys (λ r. refl)
              (elsewhere id' (edit_key f) other (λ r. refl)) m))

  update_key-Keeps :
      (id' : String) (revision : ℕ) (f : KeyForm) (g : Registry)
      → str_eq id' id ≡ false
      → OfMarked g
      → Keeps (update_key id' revision f g)
  unfolding update_key
  update_key-Keeps id' revision f g other m =
      refuse_if-Ensures OfMarked (not (form_valid f)) (problem 400 "invalid_key_config") _
        (λ v. update_found-Keeps id' revision f (live_key id' g) g other m)

  rotate_found-Keeps :
      (id' : String) (revision : ℕ) (hash : String) (k : Option KeyRow) (g : Registry)
      → str_eq id' id ≡ false
      → OfMarked g
      → Keeps (rotate_found id' revision hash k g)
  unfolding rotate_found
  rotate_found-Keeps id' revision hash none g other m = tt
  rotate_found-Keeps id' revision hash (some k) g other m =
      refuse_if-Ensures OfMarked (not (k.revision == revision)) revision_conflict _ (λ current.
        edited_row-IsMarked id' (new_token hash) g.keys (λ r. refl)
          (elsewhere id' (new_token hash) other (λ r. refl)) m)

  revoke_found-Keeps :
      (id' : String) (k : Option KeyRow) (g : Registry) → OfMarked g → Keeps (revoke_found id' k g)
  unfolding revoke_found
  revoke_found-Keeps id' none g m = tt
  revoke_found-Keeps id' (some k) g m =
      edited_row-IsMarked id' revoke g.keys (λ r. refl) (λ r hit w same live. absurd (ground arith))
        m

  tombstone_found-Keeps :
      (id' hash : String) (k : Option KeyRow) (g : Registry)
      → OfMarked g
      → Keeps (tombstone_found id' hash k g)
  unfolding tombstone_found
  tombstone_found-Keeps id' hash none g m = tt
  tombstone_found-Keeps id' hash (some k) g m =
      edited_row-IsMarked id' (tombstone hash) g.keys (λ r. refl)
        (λ r hit w same live. absurd (ground arith)) m

module _ (env : Environment) (defaults : PolicySettings) (id : String)
    (replacement : Option String) where
  transaction-Keeps :
      (c : Command) (g : Registry)
      → renews id c ≡ false
      → IsMarked id replacement g.keys
      → Leaves (IsMarked id replacement) (transaction env defaults c g)
  unfolding transaction rotate_key revoke_key delete_key
  transaction-Keeps (credential_create i f) g n =
      create_credential-Leaves (IsMarked id replacement) env i f g
  transaction-Keeps (credential_update i f epoch) g n =
      save_credential-Leaves (IsMarked id replacement) env i f epoch g
  transaction-Keeps (credential_delete i) g n =
      delete_credential-Leaves (IsMarked id replacement) i g
  transaction-Keeps (channel_create c) g n =
      create_channel-Leaves (IsMarked id replacement) env defaults c g
  transaction-Keeps (channel_save c) g n =
      save_channel-Leaves (IsMarked id replacement) env defaults c g
  transaction-Keeps (channel_delete i) g n = delete_channel-Leaves (IsMarked id replacement) i g
  transaction-Keeps (channel_cache_clear i epoch) g n =
      clear_channel_cache-Leaves (IsMarked id replacement) i epoch g
  transaction-Keeps (policy_create i name alias s) g n =
      create_policy-Leaves (IsMarked id replacement) env i name alias s g
  transaction-Keeps (policy_import i version name alias s) g n =
      import_policy-Leaves (IsMarked id replacement) env i version name alias s g
  transaction-Keeps (policy_save i name revision s) g n =
      save_config-Leaves (IsMarked id replacement) env i name revision s g
  transaction-Keeps (policy_state i revision enabled) g n =
      set_policy_state-Leaves (IsMarked id replacement) env i revision enabled g
  transaction-Keeps (policy_archive i revision archived running) g n =
      archive_policy-Leaves (IsMarked id replacement) i revision archived running g
  transaction-Keeps (policy_delete i running) g n =
      delete_policy-Leaves (IsMarked id replacement) i running g
  transaction-Keeps (key_create i hash now name ids rpm expires_at) g n =
      create_key-Keeps id replacement i hash now name ids rpm expires_at g
  transaction-Keeps (key_update i revision f) g n = update_key-Keeps id replacement i revision f g n
  transaction-Keeps (key_rotate i revision hash) g n =
      rotate_found-Keeps id replacement i revision hash (live_key i g) g n
  transaction-Keeps (key_revoke i) g n = revoke_found-Keeps id replacement i (live_key i g) g
  transaction-Keeps (key_delete i hash) g n =
      tombstone_found-Keeps id replacement i hash (live_key i g) g

  finish_transaction-IsMarked :
      (commit : Result (Unit {0})) (action : String) (g : Registry) (after : Result Registry)
      → IsMarked id replacement g.keys
      → Leaves (IsMarked id replacement) after
      → IsMarked id replacement (finish_transaction commit action g after).0.keys
  unfolding finish_transaction
  finish_transaction-IsMarked commit action g (err e) m l = m
  finish_transaction-IsMarked (err e) action g (ok g') m l = m
  finish_transaction-IsMarked (ok u) action g (ok g') m l = l

  run_commands-IsMarked :
      (cs : List (Command × Result (Unit {0}))) (g : Registry)
      → All (λ c. renews id c.0 ≡ false) cs
      → IsMarked id replacement g.keys
      → IsMarked id replacement (run_commands env defaults cs g).keys
  unfolding run_commands mutate
  run_commands-IsMarked [] g n m = m
  run_commands-IsMarked ((c, commit) ∷ cs) g (n, ns) m = run_commands-IsMarked cs _ ns (
      finish_transaction-IsMarked commit (action_of c) g (transaction env defaults c g) m
        (transaction-Keeps c g n m))

  -- A rotation, a revocation or a deletion of a client key has succeeded, and then any commands of
  -- the administrators follow, which may fail, but none that edits or rotates this key: a token
  -- that is accepted as this key is then the one that the rotation gave, and after a revocation or
  -- a deletion there is none. Whoever is accepted has a row with the digest of the token, active,
  -- not deleted and not expired.
  pub authenticate_key-withdrawn :
      (c : Command) (commit : Result (Unit {0})) (cs : List (Command × Result (Unit {0})))
      (g : Registry) (hash : String) (now : ℕ) (k : KeyRow)
      → withdrawal c ≡ some (id, replacement)
      → (run_command env defaults commit c g).1 ≡ ok tt
      → All (λ c. renews id c.0 ≡ false) cs
      → authenticate_key hash now
          (run_commands env defaults cs (run_command env defaults commit c g).0)
        ≡ ok k
      → Accepts hash now k × (k.id ≡ id → replacement ≡ some hash)
  authenticate_key-withdrawn c commit cs g hash now k w s n e =
      let marked =
        run_commands-IsMarked cs _ n
          (withdrawing-IsMarked env defaults c id replacement commit g w s) in
      let (withdrawn, accepted) =
        authenticate_key-Accepts (IsWithdrawn id replacement) hash now _ k marked.1 e in
      (
        accepted,
        λ same.
            withdrawn ((eq_iff k.id id).1 same) accepted.1
            ∙ ap some ((eq_iff k.token_hash hash).0 accepted.0),
      )
