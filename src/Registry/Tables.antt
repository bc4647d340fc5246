-- ===== src/Registry/Tables.antt =====
-- The tables, and a transaction on them: `Store.mutate` of internal/audit/store.go. Configuration
-- writes take one lock, so a transaction is one step. A table is the list of its rows.
use deepseek_moderation_api.Prelude.{
  ℕ, Bool, List, [], ◌∷◌, ◌++◌, Option, none, some, String, str_eq, if◌then◌else◌, any, Failure,
  internal, Result, ok, err, problem,
}
use deepseek_moderation_api.Prelude.Int.{ℤ}
use deepseek_moderation_api.Policy.Settings.{PolicySettings}

pub record CredentialRow : Type 0 where
  pub id : String
  pub provider : String
  pub base_url : List ℕ
  pub api_format : String
  pub active : Bool
  pub secret : List ℕ

pub record ChannelRow : Type 0 where
  pub id : String
  pub name : List ℕ
  pub model : List ℕ
  pub credential_id : String
  pub timeout_ms : ℤ
  pub max_tokens : ℤ
  pub max_concurrency : ℤ
  pub rpm : ℤ
  pub text_only : Bool
  pub enabled : Bool
  pub revision : ℕ
  pub cache_epoch : String

pub record PolicyRow : Type 0 where
  pub id : String
  pub name : List ℕ
  pub alias : String
  pub enabled : Bool
  pub archived : Bool
  pub revision : ℕ
  pub config : PolicySettings

-- A deleted key keeps its row for the costs of the past.
pub record KeyRow : Type 0 where
  pub id : String
  pub name : List ℕ
  pub policy_ids : List String
  pub rpm : ℤ
  pub active : Bool
  pub expires_at : Option ℕ
  pub token_hash : String
  pub revision : ℕ
  pub deleted : Bool

pub record Registry : Type 0 where
  pub credentials : List CredentialRow
  pub channels : List ChannelRow
  pub policies : List PolicyRow
  pub keys : List KeyRow
  pub actions : List String

abbrev pub not_found : Failure
not_found = problem 404 "not_found"

abbrev pub revision_conflict : Failure
revision_conflict = problem 409 "revision_conflict"

module _ {Row : Type 0} (id_of : Row → String) where
  abbrev pub has_row : String → List Row → Bool
  has_row id rows = any (λ r. str_eq (id_of r) id) rows

  unfoldable pub find_row : String → List Row → Option Row
  find_row id [] = none
  find_row id (r ∷ rows) =
      let rest = find_row id rows in if str_eq (id_of r) id then some r else rest

  -- UPDATE … WHERE id = …
  unfoldable pub update_row : String → (Row → Row) → List Row → List Row
  update_row id f [] = []
  update_row id f (r ∷ rows) = (if str_eq (id_of r) id then f r else r) ∷ update_row id f rows

  -- DELETE … WHERE id = …
  unfoldable pub remove_row : String → List Row → List Row
  remove_row id [] = []
  remove_row id (r ∷ rows) =
      let rest = remove_row id rows in if str_eq (id_of r) id then rest else r ∷ rest

  -- INSERT; the id is the primary key.
  unfoldable pub insert_row : Row → List Row → Result (List Row)
  insert_row r rows = if has_row (id_of r) rows then err internal else ok (rows ++ r ∷ [])

-- A failed step, or a failed commit, leaves the tables as they were.
unfoldable pub finish_transaction :
    (commit : Result (Unit {0}))
    → (action : String) → Registry
    → (after : Result Registry) → Registry × Result (Unit {0})
finish_transaction commit action g (err e) = (g, err e)
finish_transaction (err e) action g (ok g') = (g, err e)
finish_transaction (ok u) action g (ok g') = (record g' { actions = action ∷ g'.actions }, ok tt)

unfoldable pub mutate :
    (commit : Result (Unit {0}))
    → (action : String) → (Registry → Result Registry)
    → Registry
    → Registry × Result (Unit {0})
unfolding finish_transaction
mutate commit action step g = finish_transaction commit action g (step g)
