-- ===== src/Registry/Consistent/Channels.antt =====
-- Channels keep the references (internal/audit/channels.go).
use deepseek_moderation_api.Prelude.{
  ◌≡◌, refl, sym, ◌∙◌, Bool, true, false, not, List, [], ◌∷◌, ◌++◌, Option, none, some, String,
  str_eq, arith, eq_iff, any, All, All-snoc, ok, problem, Ensures, >>=-Ensures, refuse_if-Ensures,
}
use deepseek_moderation_api.Policy.Settings.{ChannelBinding, PolicySettings, bindings}
use deepseek_moderation_api.Policy.Candidates.{Environment}
use deepseek_moderation_api.Registry.Tables.{
  CredentialRow, ChannelRow, PolicyRow, Registry, find_row, update_row, remove_row, not_found,
  revision_conflict,
}
use deepseek_moderation_api.Registry.Rows.{
  update_row-All, has_row-update_row, remove_row-All, has_row-remove_row, has_row-append,
  find_row-has_row, insert_row-Ensures,
}
use deepseek_moderation_api.Registry.Connections.{
  new_channel, edit_channel, new_epoch, check_channel, check_connection, create_channel,
  at_revision, save_channel, binds, delete_channel, clear_channel_cache,
}
use deepseek_moderation_api.Registry.Consistent.{
  has_channel, has_credential, IsBound, IsConnected, IsConsistent, with_channels, more_channels,
}

module _ (env : Environment) where
  check_connection-has_credential :
      (defaults : PolicySettings) (c : ChannelRow) (found : Option CredentialRow) (b : Bool)
      → check_connection env defaults c found ≡ ok b
      → (k : CredentialRow) × (found ≡ some k)
  unfolding check_connection
  check_connection-has_credential defaults c none b e = cc
  check_connection-has_credential defaults c (some k) b e = (k, refl)

  connected_row :
      (defaults : PolicySettings) (c : ChannelRow) (g : Registry) (b : Bool)
      → check_connection env defaults c (find_row (λ k. k.id) c.credential_id g.credentials) ≡ ok b
      → has_credential g.credentials c.credential_id ≡ true
  connected_row defaults c g b e =
      let (k, found) = check_connection-has_credential defaults c _ b e in
      find_row-has_row (λ k. k.id) c.credential_id g.credentials k found

  pub create_channel-IsConsistent :
      (defaults : PolicySettings) (c : ChannelRow) (g : Registry)
      → IsConsistent g
      → Ensures IsConsistent (create_channel env defaults c g)
  unfolding create_channel
  create_channel-IsConsistent defaults c g h = >>=-Ensures IsConsistent (check_channel c) _ (λ u e.
      >>=-Ensures IsConsistent
        (check_connection env defaults c (find_row (λ k. k.id) c.credential_id g.credentials)) _
        (λ text_only checked.
          let row = new_channel text_only c in
          let rows = g.channels ++ row ∷ [] in
          insert_row-Ensures (λ r. r.id) IsConsistent row g.channels
            (λ rows. ok (record g { channels = rows }))
            (λ fresh.
              with_channels g rows
                (more_channels g rows (λ j. has_row-append (λ r. r.id) j g.channels row) h)
                (All-snoc (IsConnected g.credentials) g.channels row h.connected
                  (connected_row defaults c g text_only checked))
                h)))

  pub save_channel-IsConsistent :
      (defaults : PolicySettings) (c : ChannelRow) (g : Registry)
      → IsConsistent g
      → Ensures IsConsistent (save_channel env defaults c g)
  unfolding save_channel
  save_channel-IsConsistent defaults c g h = >>=-Ensures IsConsistent (check_channel c) _ (λ u e.
      >>=-Ensures IsConsistent
        (check_connection env defaults c (find_row (λ k. k.id) c.credential_id g.credentials)) _
        (λ text_only checked.
          refuse_if-Ensures IsConsistent
            (not (at_revision c.revision (find_row (λ r. r.id) c.id g.channels))) revision_conflict
            _
            (λ current.
              let edit = edit_channel text_only c in
              let rows = update_row (λ r. r.id) c.id edit g.channels in
              let kept = λ (j : String).
                has_row-update_row (λ r. r.id) j c.id edit g.channels
                  (λ r hit. sym ((eq_iff r.id c.id).0 hit)) in
              with_channels g rows (more_channels g rows (λ j e. kept j ∙ e) h)
                (update_row-All (λ r. r.id) (IsConnected g.credentials) c.id edit g.channels
                  (λ r hit old. connected_row defaults c g text_only checked) h.connected)
                h)))

other_channels :
    (id : String) (channels : List ChannelRow) (bs : List ChannelBinding)
    → any (λ b. str_eq b.channel_id id) bs ≡ false
    → All (λ b. has_channel channels b.channel_id ≡ true) bs
    → All (λ b. has_channel (remove_row (λ c. c.id) id channels) b.channel_id ≡ true) bs
other_channels id channels [] n a = tt
other_channels id channels (b ∷ bs) n a = (
  has_row-remove_row (λ c. c.id) b.channel_id id channels (ground arith) a.0,
  other_channels id channels bs (ground arith) a.1,
)

unbound-All :
    (id : String) (channels : List ChannelRow) (ps : List PolicyRow)
    → any (binds id) ps ≡ false
    → All (IsBound channels) ps
    → All (IsBound (remove_row (λ c. c.id) id channels)) ps
unbound-All id channels [] n a = tt
unbound-All id channels (p ∷ ps) n a = (
  other_channels id channels (bindings p.config) (ground arith) a.0,
  unbound-All id channels ps (ground arith) a.1,
)

pub delete_channel-IsConsistent :
    (id : String) (g : Registry) → IsConsistent g → Ensures IsConsistent (delete_channel id g)
unfolding delete_channel
delete_channel-IsConsistent id g h =
    refuse_if-Ensures IsConsistent (not (has_channel g.channels id)) not_found _ (λ there.
      refuse_if-Ensures IsConsistent (any (binds id) g.policies) (problem 409 "channel_in_use") _
        (λ unused.
          with_channels g (remove_row (λ c. c.id) id g.channels)
            (unbound-All id g.channels g.policies unused h.bound)
            (remove_row-All (λ c. c.id) (IsConnected g.credentials) id g.channels h.connected) h))

pub clear_channel_cache-IsConsistent :
    (id epoch : String) (g : Registry)
    → IsConsistent g
    → Ensures IsConsistent (clear_channel_cache id epoch g)
unfolding clear_channel_cache
clear_channel_cache-IsConsistent id epoch g h =
    let edit = new_epoch epoch in
    let rows = update_row (λ c. c.id) id edit g.channels in
    let kept =
      λ (j : String). has_row-update_row (λ c. c.id) j id edit g.channels (λ r hit. refl) in
    refuse_if-Ensures IsConsistent (not (has_channel g.channels id)) not_found _ (λ there.
      with_channels g rows (more_channels g rows (λ j e. kept j ∙ e) h)
        (update_row-All (λ c. c.id) (IsConnected g.credentials) id edit g.channels
          (λ r hit old. old) h.connected)
        h)
