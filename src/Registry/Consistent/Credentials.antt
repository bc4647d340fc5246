-- ===== src/Registry/Consistent/Credentials.antt =====
-- Credentials keep the references (internal/audit/store.go, credentials.go).
use deepseek_moderation_api.Prelude.{
  ◌≡◌, refl, ◌∙◌, true, false, not, List, [], ◌∷◌, ◌++◌, Option, none, some, String, str_eq, arith,
  any, All, All-map, Bool-cases, inl, inr, ok, problem, Ensures, >>=-Ensures, refuse_if-Ensures,
}
use deepseek_moderation_api.Policy.Provider.{is_empty}
use deepseek_moderation_api.Policy.Candidates.{Environment}
use deepseek_moderation_api.Registry.Tables.{
  CredentialRow, ChannelRow, Registry, find_row, update_row, remove_row, not_found,
}
use deepseek_moderation_api.Registry.Rows.{
  has_row-update_row, has_row-remove_row, has_row-append, insert_row-Ensures,
}
use deepseek_moderation_api.Registry.Connections.{
  new_credential, form_provider, CredentialForm, check_credential, create_credential,
  edit_credential, touch_channels, found_credential, save_credential, delete_credential,
}
use deepseek_moderation_api.Registry.Consistent.{
  has_channel, has_credential, IsConnected, IsConsistent, with_credentials, with_channels,
  more_channels,
}

touch_channels-has_channel :
    (id epoch j : String) (cs : List ChannelRow)
    → has_channel (touch_channels id epoch cs) j ≡ has_channel cs j
unfolding touch_channels
touch_channels-has_channel id epoch j [] = refl
touch_channels-has_channel id epoch j (c ∷ cs) =
    ground (arith, touch_channels-has_channel id epoch j cs)

touch_channels-All :
    (credentials : List CredentialRow) (id epoch : String) (cs : List ChannelRow)
    → All (IsConnected credentials) cs
    → All (IsConnected credentials) (touch_channels id epoch cs)
unfolding touch_channels
touch_channels-All credentials id epoch [] a = tt
touch_channels-All credentials id epoch (c ∷ cs) a = elim (Bool-cases (str_eq c.credential_id id)) [
  | inl hit ↦ rw hit (a.0, touch_channels-All credentials id epoch cs a.1)
  | inr other ↦ rw other (a.0, touch_channels-All credentials id epoch cs a.1)
]

-- What the channels refer to is still there.
more_credentials :
    (g : Registry) (rows : List CredentialRow)
    → ((id : String) → has_credential g.credentials id ≡ true → has_credential rows id ≡ true)
    → IsConsistent g
    → All (IsConnected rows) g.channels
more_credentials g rows more h =
    All-map (IsConnected g.credentials) (IsConnected rows) g.channels (λ c. more c.credential_id)
      h.connected

module _ (env : Environment) where
  pub create_credential-IsConsistent :
      (id : String) (f : CredentialForm) (g : Registry)
      → IsConsistent g
      → Ensures IsConsistent (create_credential env id f g)
  unfolding create_credential
  create_credential-IsConsistent id f g h =
      let row = new_credential env id f in
      >>=-Ensures IsConsistent (check_credential env f) _ (λ u e.
        refuse_if-Ensures IsConsistent (is_empty f.key) (problem 400 "key_required") _ (λ k.
          insert_row-Ensures (λ r. r.id) IsConsistent row g.credentials
            (λ rows. ok (record g { credentials = rows }))
            (λ fresh.
              with_credentials g (g.credentials ++ row ∷ [])
                (more_credentials g (g.credentials ++ row ∷ [])
                  (λ j. has_row-append (λ r. r.id) j g.credentials row) h)
                h)))

  edit_credential-IsConsistent :
      (id : String) (f : CredentialForm) (epoch : String) (r : Option CredentialRow) (g : Registry)
      → IsConsistent g
      → Ensures IsConsistent (found_credential env id f epoch r g)
  unfolding found_credential
  edit_credential-IsConsistent id f epoch none g h = tt
  edit_credential-IsConsistent id f epoch (some r) g h =
      let edit = edit_credential env f in
      let rows = update_row (λ c. c.id) id edit g.credentials in
      let kept =
        λ (j : String). has_row-update_row (λ c. c.id) j id edit g.credentials (λ r k. refl) in
      let h' = with_credentials g rows (more_credentials g rows (λ j e. kept j ∙ e) h) h in
      let g' = record g { credentials = rows } in
      refuse_if-Ensures IsConsistent (not (str_eq r.provider (form_provider f)))
        (problem 400 "credential_binding_immutable") _
        (λ same.
          with_channels g' (touch_channels id epoch g.channels)
            (more_channels g' (touch_channels id epoch g.channels)
              (λ j e. touch_channels-has_channel id epoch j g.channels ∙ e) h')
            (touch_channels-All rows id epoch g.channels h'.connected) h')

  pub save_credential-IsConsistent :
      (id : String) (f : CredentialForm) (epoch : String) (g : Registry)
      → IsConsistent g
      → Ensures IsConsistent (save_credential env id f epoch g)
  unfolding save_credential
  save_credential-IsConsistent id f epoch g h =
      >>=-Ensures IsConsistent (check_credential env f) _
        (λ u e. edit_credential-IsConsistent id f epoch (find_row (λ c. c.id) id g.credentials) g h)

other_credential :
    (id : String) (credentials : List CredentialRow) (cs : List ChannelRow)
    → any (λ c. str_eq c.credential_id id) cs ≡ false
    → All (IsConnected credentials) cs
    → All (IsConnected (remove_row (λ c. c.id) id credentials)) cs
other_credential id credentials [] n a = tt
other_credential id credentials (c ∷ cs) n a = (
  has_row-remove_row (λ k. k.id) c.credential_id id credentials (ground arith) a.0,
  other_credential id credentials cs (ground arith) a.1,
)

pub delete_credential-IsConsistent :
    (id : String) (g : Registry) → IsConsistent g → Ensures IsConsistent (delete_credential id g)
unfolding delete_credential
delete_credential-IsConsistent id g h =
    refuse_if-Ensures IsConsistent (not (has_credential g.credentials id)) not_found _ (λ there.
      refuse_if-Ensures IsConsistent (any (λ c. str_eq c.credential_id id) g.channels)
        (problem 409 "credential_in_use") _
        (λ unused.
          with_credentials g (remove_row (λ c. c.id) id g.credentials)
            (other_credential id g.credentials g.channels unused h.connected) h))
