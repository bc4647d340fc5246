-- ===== src/Registry/Consistent/Policies.antt =====
-- Policies keep the references (internal/audit/store.go, policy_lifecycle.go).
use deepseek_moderation_api.Prelude.{
  ℕ, ◌≡◌, refl, ◌∙◌, Bool, true, false, not, ◌||◌, List, [], ◌∷◌, ◌++◌, Option, none, some, String,
  str_eq, arith, any, ◌==◌, ltb, All, All-map, All-snoc, ok, problem, Ensures, >>=-Ensures,
  refuse_if-Ensures,
}
use deepseek_moderation_api.Text.{codes, utf8_length}
use deepseek_moderation_api.Keywords.{is_blank}
use deepseek_moderation_api.Policy.Settings.{PolicySettings, bindings, validate_settings}
use deepseek_moderation_api.Policy.Candidates.{Environment}
use deepseek_moderation_api.Registry.Tables.{
  ChannelRow, PolicyRow, KeyRow, Registry, find_row, update_row, remove_row, revision_conflict,
}
use deepseek_moderation_api.Registry.Rows.{
  has_row-update_row, remove_row-All, has_row-remove_row, has_row-append, find_row-has_row,
  find_row-All, insert_row-Ensures, all-All,
}
use deepseek_moderation_api.Registry.Keyed.{
  append-IsKeyed, update_row-IsKeyed, remove_row-IsKeyed, update_found-All,
}
use deepseek_moderation_api.Registry.Policies.{
  is_found, bound_channel, with_retention, validate_bindings, new_policy, create_policy,
  edit_policy, set_enabled, set_archived, is_alias, import_policy, save_found, save_config,
  check_enable, state_found, set_policy_state, same_flag, archive_found, archive_policy, grants,
  delete_found, delete_policy,
}
use deepseek_moderation_api.Registry.Consistent.{
  has_channel, has_policy, IsBound, IsIdle, IsGranted, IsConsistent, with_policies, more_policies,
}

found_has_channel :
    (g : Registry) (id : String) (c : Option ChannelRow)
    → find_row (λ c. c.id) id g.channels ≡ c
    → is_found g c ≡ true
    → has_channel g.channels id ≡ true
found_has_channel g id none e h = cc
found_has_channel g id (some c) e h = find_row-has_row (λ c. c.id) id g.channels c e

-- An edit of the row that is found, which keeps its id.
edited_policy :
    (g : Registry) (id : String) (p : PolicyRow) (edit : PolicyRow → PolicyRow)
    → ((r : PolicyRow) → (edit r).id ≡ r.id)
    → find_row (λ p. p.id) id g.policies ≡ some p
    → IsBound g.channels (edit p)
    → IsIdle (edit p)
    → IsConsistent g
    → IsConsistent (record g { policies = update_row (λ p. p.id) id edit g.policies })
edited_policy g id p edit keep e b i h =
    let rows = update_row (λ p. p.id) id edit g.policies in
    let kept =
      λ (j : String). has_row-update_row (λ p. p.id) j id edit g.policies (λ r hit. keep r) in
    with_policies g rows
      (update_found-All (λ p. p.id) (IsBound g.channels) id edit g.policies p h.keyed e b h.bound)
      (update_row-IsKeyed (λ p. p.id) id edit g.policies (λ r hit. keep r) h.keyed)
      (update_found-All (λ p. p.id) IsIdle id edit g.policies p h.keyed e i h.idle)
      (more_policies g rows (λ j has. kept j ∙ has) h) h

module _ (env : Environment) where
  validate_bindings-IsBound :
      (g : Registry) (s : PolicySettings) (required : Bool) (u : Unit {0})
      → validate_bindings env g s required ≡ ok u
      → All (λ b. has_channel g.channels b.channel_id ≡ true) (bindings s)
  unfolding validate_bindings
  validate_bindings-IsBound g s required u e =
      All-map _ _ (bindings s) (λ b. found_has_channel g b.channel_id (bound_channel g b) refl)
        (all-All (λ b. is_found g (bound_channel g b)) (bindings s) (ground arith))

  pub create_policy-IsConsistent :
      (id : String) (name : List ℕ) (alias : String) (s : PolicySettings) (g : Registry)
      → IsConsistent g
      → Ensures IsConsistent (create_policy env id name alias s g)
  unfolding create_policy
  create_policy-IsConsistent id name alias s g h =
      let row = new_policy env id name alias s in
      let rows = g.policies ++ row ∷ [] in
      >>=-Ensures IsConsistent (validate_bindings env g s false) _ (λ u checked.
        refuse_if-Ensures IsConsistent (any (λ p. str_eq p.alias alias) g.policies)
          (problem 409 "alias_exists") _
          (λ free.
            insert_row-Ensures (λ p. p.id) IsConsistent row g.policies
              (λ rows. ok (record g { policies = rows }))
              (λ fresh.
                with_policies g rows
                  (All-snoc (IsBound g.channels) g.policies row h.bound
                    (validate_bindings-IsBound g s false u checked))
                  (append-IsKeyed (λ p. p.id) g.policies row fresh h.keyed)
                  (All-snoc IsIdle g.policies row h.idle refl)
                  (more_policies g rows (λ j. has_row-append (λ p. p.id) j g.policies row) h) h)))

  pub import_policy-IsConsistent :
      (id : String) (version : ℕ) (name : List ℕ) (alias : String) (s : PolicySettings)
      (g : Registry)
      → IsConsistent g
      → Ensures IsConsistent (import_policy env id version name alias s g)
  unfolding import_policy
  import_policy-IsConsistent id version name alias s g h =
      refuse_if-Ensures IsConsistent
        (not (version == 1)
          || is_blank name
          || ltb 200 (utf8_length name)
          || not (is_alias env (codes alias)))
        (problem 400 "invalid_policy") _
        (λ v.
          refuse_if-Ensures IsConsistent
            (not (validate_settings env.parse env.origins env.one (with_retention s)))
            (problem 400 "invalid_config") _
            (λ w. create_policy-IsConsistent id name alias (with_retention s) g h))

  save_found-IsConsistent :
      (id : String) (name : List ℕ) (revision : ℕ) (s : PolicySettings) (p : Option PolicyRow)
      (g : Registry)
      → find_row (λ p. p.id) id g.policies ≡ p
      → IsConsistent g
      → Ensures IsConsistent (save_found env id name revision s p g)
  unfolding save_found
  save_found-IsConsistent id name revision s none g e h = tt
  save_found-IsConsistent id name revision s (some p) g e h =
      refuse_if-Ensures IsConsistent p.archived (problem 409 "policy_archived") _ (λ live.
        >>=-Ensures IsConsistent (validate_bindings env g s p.enabled) _ (λ u checked.
          refuse_if-Ensures IsConsistent (not (p.revision == revision)) revision_conflict _
            (λ current.
              edited_policy g id p (edit_policy name s) (λ r. refl) e
                (validate_bindings-IsBound g s p.enabled u checked)
                (find_row-All (λ p. p.id) IsIdle id g.policies p h.idle e) h)))

  pub save_config-IsConsistent :
      (id : String) (name : List ℕ) (revision : ℕ) (s : PolicySettings) (g : Registry)
      → IsConsistent g
      → Ensures IsConsistent (save_config env id name revision s g)
  unfolding save_config
  save_config-IsConsistent id name revision s g h =
      refuse_if-Ensures IsConsistent (not (validate_settings env.parse env.origins env.one s))
        (problem 400 "invalid_config") _
        (λ v.
          save_found-IsConsistent id name revision s (find_row (λ p. p.id) id g.policies) g refl h)

  state_found-IsConsistent :
      (id : String) (revision : ℕ) (enabled : Bool) (p : Option PolicyRow) (g : Registry)
      → find_row (λ p. p.id) id g.policies ≡ p
      → IsConsistent g
      → Ensures IsConsistent (state_found env id revision enabled p g)
  unfolding state_found
  state_found-IsConsistent id revision enabled none g e h = tt
  state_found-IsConsistent id revision enabled (some p) g e h =
      refuse_if-Ensures IsConsistent (not (p.revision == revision)) revision_conflict _ (λ current.
        refuse_if-Ensures IsConsistent p.archived (problem 409 "policy_archived") _ (λ live.
          >>=-Ensures IsConsistent (check_enable env g p enabled) _ (λ u checked.
            edited_policy g id p (set_enabled enabled) (λ r. refl) e
              (find_row-All (λ p. p.id) (IsBound g.channels) id g.policies p h.bound e)
              (ground arith) h)))

  pub set_policy_state-IsConsistent :
      (id : String) (revision : ℕ) (enabled : Bool) (g : Registry)
      → IsConsistent g
      → Ensures IsConsistent (set_policy_state env id revision enabled g)
  unfolding set_policy_state
  set_policy_state-IsConsistent id revision enabled g h =
      state_found-IsConsistent id revision enabled (find_row (λ p. p.id) id g.policies) g refl h

archive_found-IsConsistent :
    (id : String) (revision : ℕ) (archived running : Bool) (p : Option PolicyRow) (g : Registry)
    → find_row (λ p. p.id) id g.policies ≡ p
    → IsConsistent g
    → Ensures IsConsistent (archive_found id revision archived running p g)
unfolding archive_found
archive_found-IsConsistent id revision archived running none g e h = tt
archive_found-IsConsistent id revision archived running (some p) g e h =
    refuse_if-Ensures IsConsistent (not (p.revision == revision)) revision_conflict _ (λ current.
      refuse_if-Ensures IsConsistent (same_flag p.archived archived)
        (problem 409 "policy_state_unchanged") _
        (λ other.
          refuse_if-Ensures IsConsistent running (problem 409 "policy_in_evaluation") _ (λ done.
            edited_policy g id p (set_archived archived) (λ r. refl) e
              (find_row-All (λ p. p.id) (IsBound g.channels) id g.policies p h.bound e)
              (ground arith) h)))

pub archive_policy-IsConsistent :
    (id : String) (revision : ℕ) (archived running : Bool) (g : Registry)
    → IsConsistent g
    → Ensures IsConsistent (archive_policy id revision archived running g)
unfolding archive_policy
archive_policy-IsConsistent id revision archived running g h =
    archive_found-IsConsistent id revision archived running (find_row (λ p. p.id) id g.policies) g
      refl h

other_policies :
    (id : String) (policies : List PolicyRow) (ids : List String)
    → any (λ p. str_eq p id) ids ≡ false
    → All (λ j. has_policy policies j ≡ true) ids
    → All (λ j. has_policy (remove_row (λ p. p.id) id policies) j ≡ true) ids
other_policies id policies [] n a = tt
other_policies id policies (j ∷ ids) n a = (
  has_row-remove_row (λ p. p.id) j id policies (ground arith) a.0,
  other_policies id policies ids (ground arith) a.1,
)

ungranted-All :
    (id : String) (policies : List PolicyRow) (ks : List KeyRow)
    → any (grants id) ks ≡ false
    → All (IsGranted policies) ks
    → All (IsGranted (remove_row (λ p. p.id) id policies)) ks
ungranted-All id policies [] n a = tt
ungranted-All id policies (k ∷ ks) n a = (
  λ live. other_policies id policies k.policy_ids (ground arith) (a.0 live),
  ungranted-All id policies ks (ground arith) a.1,
)

delete_found-IsConsistent :
    (id : String) (running : Bool) (p : Option PolicyRow) (g : Registry)
    → IsConsistent g
    → Ensures IsConsistent (delete_found id running p g)
unfolding delete_found
delete_found-IsConsistent id running none g h = tt
delete_found-IsConsistent id running (some p) g h =
    refuse_if-Ensures IsConsistent (not p.archived) (problem 409 "policy_not_archived") _ (λ a.
      refuse_if-Ensures IsConsistent (any (grants id) g.keys || running)
        (problem 409 "policy_in_use") _
        (λ unused.
          with_policies g (remove_row (λ p. p.id) id g.policies)
            (remove_row-All (λ p. p.id) (IsBound g.channels) id g.policies h.bound)
            (remove_row-IsKeyed (λ p. p.id) id g.policies h.keyed)
            (remove_row-All (λ p. p.id) IsIdle id g.policies h.idle)
            (ungranted-All id g.policies g.keys (ground arith) h.granted) h))

pub delete_policy-IsConsistent :
    (id : String) (running : Bool) (g : Registry)
    → IsConsistent g
    → Ensures IsConsistent (delete_policy id running g)
unfolding delete_policy
delete_policy-IsConsistent id running g h =
    delete_found-IsConsistent id running (find_row (λ p. p.id) id g.policies) g h
