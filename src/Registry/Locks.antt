-- ===== src/Registry/Locks.antt =====
-- The expected revisions of edits (internal/audit/store.go, channels.go, key_lifecycle.go,
-- policy_lifecycle.go).
use deepseek_moderation_api.Prelude.{
  ℕ, ◌+◌, ◌≡◌, refl, ap, sym, ◌∙◌, Bool, true, false, not, List, [], Option, none, some, String,
  arith, eq_iff, ==_iff, ◌==◌, if◌then◌else◌, problem, Ensures, >>=-Ensures, refuse_if-Ensures,
}
use deepseek_moderation_api.Policy.Settings.{PolicySettings}
use deepseek_moderation_api.Policy.Candidates.{Environment}
use deepseek_moderation_api.Registry.Tables.{
  ChannelRow, PolicyRow, KeyRow, Registry, find_row, update_row, revision_conflict,
}
use deepseek_moderation_api.Registry.Rows.{find_row-update_row}
use deepseek_moderation_api.Registry.Connections.{
  check_channel, check_connection, at_revision, edit_channel, save_channel,
}
use deepseek_moderation_api.Registry.Policies.{
  validate_bindings, edit_policy, set_enabled, set_archived, save_found, check_enable, state_found,
  same_flag, archive_found,
}
use deepseek_moderation_api.Registry.Keys.{
  unless_deleted, live_key, KeyForm, edit_key, new_token, policies_valid, update_found,
  rotate_found,
}
use deepseek_moderation_api.Registry.Commands.{
  Command, channel_save, policy_save, policy_state, policy_archive, key_update, key_rotate,
}

pub data Target : Type 0 where
  channel_row : (id : String) → Target
  policy_row : (id : String) → Target
  key_row : (id : String) → Target

abbrev pub revision_in : {Row : Type 0} → (Row → ℕ) → Option Row → Option ℕ
revision_in revision none = none
revision_in revision (some r) = some (revision r)

-- The revision of a row; a deleted key has none.
abbrev pub revision_at : Target → Registry → Option ℕ
revision_at (channel_row id) g = revision_in (λ c. c.revision) (find_row (λ c. c.id) id g.channels)
revision_at (policy_row id) g = revision_in (λ p. p.revision) (find_row (λ p. p.id) id g.policies)
revision_at (key_row id) g = revision_in (λ k. k.revision) (live_key id g)

-- The commands that name the revision that they edit.
abbrev pub edit_of : Command → Option (Target × ℕ)
edit_of (channel_save c) = some (channel_row c.id, c.revision)
edit_of (policy_save id name revision s) = some (policy_row id, revision)
edit_of (policy_state id revision enabled) = some (policy_row id, revision)
edit_of (policy_archive id revision archived running) = some (policy_row id, revision)
edit_of (key_update id revision f) = some (key_row id, revision)
edit_of (key_rotate id revision hash) = some (key_row id, revision)
edit_of c = none

-- The edit is made on the revision that it names, and the row has the next one after it.
abbrev pub IsAdvanced : Target → ℕ → Registry → Registry → Type 0
IsAdvanced t revision g g' =
    (revision_at t g ≡ some revision) × (revision_at t g' ≡ some (revision + 1))

policy-IsAdvanced :
    (g : Registry) (id : String) (revision : ℕ) (p : PolicyRow) (edit : PolicyRow → PolicyRow)
    → ((r : PolicyRow) → (edit r).id ≡ r.id)
    → (edit p).revision ≡ p.revision + 1
    → find_row (λ p. p.id) id g.policies ≡ some p
    → not (p.revision == revision) ≡ false
    → IsAdvanced
        (policy_row id)
        revision
        g
        (record g { policies = update_row (λ p. p.id) id edit g.policies })
policy-IsAdvanced g id revision p edit keep up e n =
    let same : p.revision ≡ revision = ground (arith, ==_iff p.revision revision) in
    let moved = find_row-update_row (λ p. p.id) id edit g.policies p (λ r hit. keep r) e in
    (rw (e, same) refl, rw (moved, up, same) refl)

unless_eq-some :
    {A : Type 0} (gone : Bool) (x y : A)
    → (if gone then none else some x) ≡ some y
    → (gone ≡ false) × (some x ≡ some y)
unless_eq-some true x y e = cc
unless_eq-some false x y e = (refl, e)

unless_false :
    {A : Type 0} (gone : Bool) (x : A) → gone ≡ false → (if gone then none else some x) ≡ some x
unless_false true x e = cc
unless_false false x e = refl

live_row :
    (k : KeyRow) (found : Option KeyRow)
    → unless_deleted found ≡ some k
    → (found ≡ some k) × (k.deleted ≡ false)
live_row k none e = cc
live_row k (some r) e =
    let (live, same) = unless_eq-some r.deleted r k e in
    let same' : r ≡ k = cc in (same, sym (ap (λ x. x.deleted) same') ∙ live)

key-IsAdvanced :
    (g : Registry) (id : String) (revision : ℕ) (k : KeyRow) (edit : KeyRow → KeyRow)
    → ((r : KeyRow) → (edit r).id ≡ r.id)
    → (edit k).deleted ≡ k.deleted
    → (edit k).revision ≡ k.revision + 1
    → live_key id g ≡ some k
    → not (k.revision == revision) ≡ false
    → IsAdvanced (key_row id) revision g (record g { keys = update_row (λ k. k.id) id edit g.keys })
key-IsAdvanced g id revision k edit keep kept up e n =
    let same : k.revision ≡ revision = ground (arith, ==_iff k.revision revision) in
    let (found, live) = live_row k (find_row (λ k. k.id) id g.keys) e in
    let moved = find_row-update_row (λ k. k.id) id edit g.keys k (λ r hit. keep r) found in
    let after = ap unless_deleted moved ∙ unless_false (edit k).deleted (edit k) (kept ∙ live) in
    (
      rw (e, same) refl,
      ap (revision_in (λ k. k.revision)) after ∙ ap some (up ∙ ap (λ n. n + 1) same),
    )

at_revision-revision_in :
    (revision : ℕ) (c : Option ChannelRow)
    → not (at_revision revision c) ≡ false
    → (r : ChannelRow) × (c ≡ some r) × (r.revision ≡ revision)
at_revision-revision_in revision none n = cc
at_revision-revision_in revision (some r) n = (r, refl, ground (arith, ==_iff r.revision revision))

pub save_found-IsAdvanced :
    (env : Environment) (id : String) (name : List ℕ) (revision : ℕ) (s : PolicySettings)
    (p : Option PolicyRow) (g : Registry)
    → find_row (λ p. p.id) id g.policies ≡ p
    → Ensures (IsAdvanced (policy_row id) revision g) (save_found env id name revision s p g)
unfolding save_found
save_found-IsAdvanced env id name revision s none g e = tt
save_found-IsAdvanced env id name revision s (some p) g e =
    let P = IsAdvanced (policy_row id) revision g in
    refuse_if-Ensures P p.archived (problem 409 "policy_archived") _ (λ live.
      >>=-Ensures P (validate_bindings env g s p.enabled) _ (λ u checked.
        refuse_if-Ensures P (not (p.revision == revision)) revision_conflict _ (λ current.
          policy-IsAdvanced g id revision p (edit_policy name s) (λ r. refl) refl e current)))

pub state_found-IsAdvanced :
    (env : Environment) (id : String) (revision : ℕ) (enabled : Bool) (p : Option PolicyRow)
    (g : Registry)
    → find_row (λ p. p.id) id g.policies ≡ p
    → Ensures (IsAdvanced (policy_row id) revision g) (state_found env id revision enabled p g)
unfolding state_found
state_found-IsAdvanced env id revision enabled none g e = tt
state_found-IsAdvanced env id revision enabled (some p) g e =
    let P = IsAdvanced (policy_row id) revision g in
    refuse_if-Ensures P (not (p.revision == revision)) revision_conflict _ (λ current.
      refuse_if-Ensures P p.archived (problem 409 "policy_archived") _ (λ live.
        >>=-Ensures P (check_enable env g p enabled) _ (λ u checked.
          policy-IsAdvanced g id revision p (set_enabled enabled) (λ r. refl) refl e current)))

pub archive_found-IsAdvanced :
    (id : String) (revision : ℕ) (archived running : Bool) (p : Option PolicyRow) (g : Registry)
    → find_row (λ p. p.id) id g.policies ≡ p
    → Ensures
        (IsAdvanced (policy_row id) revision g)
        (archive_found id revision archived running p g)
unfolding archive_found
archive_found-IsAdvanced id revision archived running none g e = tt
archive_found-IsAdvanced id revision archived running (some p) g e =
    let P = IsAdvanced (policy_row id) revision g in
    refuse_if-Ensures P (not (p.revision == revision)) revision_conflict _ (λ current.
      refuse_if-Ensures P (same_flag p.archived archived) (problem 409 "policy_state_unchanged") _
        (λ other. refuse_if-Ensures P running (problem 409 "policy_in_evaluation") _ (λ done.
          policy-IsAdvanced g id revision p (set_archived archived) (λ r. refl) refl e current)))

pub update_found-IsAdvanced :
    (id : String) (revision : ℕ) (f : KeyForm) (k : Option KeyRow) (g : Registry)
    → live_key id g ≡ k
    → Ensures (IsAdvanced (key_row id) revision g) (update_found id revision f k g)
unfolding update_found
update_found-IsAdvanced id revision f none g e = tt
update_found-IsAdvanced id revision f (some k) g e =
    let P = IsAdvanced (key_row id) revision g in
    refuse_if-Ensures P (not (k.revision == revision)) revision_conflict _ (λ current.
      refuse_if-Ensures P (not (policies_valid g [] f.policy_ids)) (problem 400 "invalid_policy") _
        (λ valid. key-IsAdvanced g id revision k (edit_key f) (λ r. refl) refl refl e current))

pub rotate_found-IsAdvanced :
    (id : String) (revision : ℕ) (token_hash : String) (k : Option KeyRow) (g : Registry)
    → live_key id g ≡ k
    → Ensures (IsAdvanced (key_row id) revision g) (rotate_found id revision token_hash k g)
unfolding rotate_found
rotate_found-IsAdvanced id revision token_hash none g e = tt
rotate_found-IsAdvanced id revision token_hash (some k) g e =
    let P = IsAdvanced (key_row id) revision g in
    refuse_if-Ensures P (not (k.revision == revision)) revision_conflict _ (λ current.
      key-IsAdvanced g id revision k (new_token token_hash) (λ r. refl) refl refl e current)

pub save_channel-IsAdvanced :
    (env : Environment) (defaults : PolicySettings) (c : ChannelRow) (g : Registry)
    → Ensures (IsAdvanced (channel_row c.id) c.revision g) (save_channel env defaults c g)
unfolding save_channel
save_channel-IsAdvanced env defaults c g =
    let P = IsAdvanced (channel_row c.id) c.revision g in
    let found = find_row (λ r. r.id) c.id g.channels in
    >>=-Ensures P (check_channel c) _ (λ u valid.
      >>=-Ensures P
        (check_connection env defaults c (find_row (λ k. k.id) c.credential_id g.credentials)) _
        (λ text_only checked.
          refuse_if-Ensures P (not (at_revision c.revision found)) revision_conflict _ (λ current.
            let (r, e, same) = at_revision-revision_in c.revision found current in
            let edit = edit_channel text_only c in
            let moved =
              find_row-update_row (λ r. r.id) c.id edit g.channels r
                (λ r hit. sym ((eq_iff r.id c.id).0 hit)) e in
            (rw (e, same) refl, rw (moved, same) refl))))
