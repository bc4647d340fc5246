-- ===== src/Registry/Rows.antt =====
-- What the statements on a table do to its rows (internal/audit/store.go).
use deepseek_moderation_api.Prelude.{
  sym, ap, ◌∙◌, ◌≡◌, refl, Bool, true, false, List, [], ◌∷◌, ◌++◌, some, String, str_eq, arith,
  eq_iff, any, all, All, Bool-cases, inl, inr, Result, Ensures, ◌>>=◌,
}
use mathlib.Core.Path.{subst}
use deepseek_moderation_api.Registry.Tables.{has_row, find_row, update_row, remove_row, insert_row}

module _ {Row : Type 0} (id_of : Row → String) where
  pub update_row-All :
      (P : Row → Type 0) (id : String) (f : Row → Row) (rows : List Row)
      → ((r : Row) → str_eq (id_of r) id ≡ true → P r → P (f r))
      → All P rows
      → All P (update_row id_of id f rows)
  unfolding update_row
  update_row-All P id f [] keep a = tt
  update_row-All P id f (r ∷ rows) keep a = elim (Bool-cases (str_eq (id_of r) id)) [
    | inl hit ↦ rw hit (keep r hit a.0, update_row-All P id f rows keep a.1)
    | inr other ↦ rw other (a.0, update_row-All P id f rows keep a.1)
  ]

  pub has_row-update_row :
      (j id : String) (f : Row → Row) (rows : List Row)
      → ((r : Row) → str_eq (id_of r) id ≡ true → id_of (f r) ≡ id_of r)
      → has_row id_of j (update_row id_of id f rows) ≡ has_row id_of j rows
  unfolding update_row
  has_row-update_row j id f [] keep = refl
  has_row-update_row j id f (r ∷ rows) keep = elim (Bool-cases (str_eq (id_of r) id)) [
    | inl hit ↦ rw (hit, keep r hit, has_row-update_row j id f rows keep) refl
    | inr other ↦ rw (other, has_row-update_row j id f rows keep) refl
  ]

  pub remove_row-All :
      (P : Row → Type 0) (id : String) (rows : List Row)
      → All P rows
      → All P (remove_row id_of id rows)
  unfolding remove_row
  remove_row-All P id [] a = tt
  remove_row-All P id (r ∷ rows) a = elim (Bool-cases (str_eq (id_of r) id)) [
    | inl hit ↦ rw hit (remove_row-All P id rows a.1)
    | inr other ↦ rw other (a.0, remove_row-All P id rows a.1)
  ]

  pub has_row-remove_row :
      (j id : String) (rows : List Row)
      → str_eq j id ≡ false
      → has_row id_of j rows ≡ true
      → has_row id_of j (remove_row id_of id rows) ≡ true
  unfolding remove_row
  has_row-remove_row j id [] n h = h
  has_row-remove_row j id (r ∷ rows) n h =
      ground (
        arith,
        eq_iff (id_of r) id,
        eq_iff (id_of r) j,
        eq_iff j id,
        has_row-remove_row j id rows n,
      )

  pub has_row-append :
      (j : String) (rows : List Row) (r : Row)
      → has_row id_of j rows ≡ true
      → has_row id_of j (rows ++ r ∷ []) ≡ true
  has_row-append j [] r h = cc
  has_row-append j (x ∷ rows) r h = ground (arith, has_row-append j rows r)

  pub find_row-has_row :
      (id : String) (rows : List Row) (r : Row)
      → find_row id_of id rows ≡ some r
      → has_row id_of id rows ≡ true
  unfolding find_row
  find_row-has_row id [] r e = cc
  find_row-has_row id (x ∷ rows) r e = ground (arith, find_row-has_row id rows r)

  pub find_row-id :
      (id : String) (rows : List Row) (r : Row) → find_row id_of id rows ≡ some r → id_of r ≡ id
  unfolding find_row
  find_row-id id [] r e = cc
  find_row-id id (x ∷ rows) r e = elim (Bool-cases (str_eq (id_of x) id)) [
    | inl hit ↦
        let e' : some x ≡ some r = rw hit at e in
        let e'' : x ≡ r = cc in sym (ap id_of e'') ∙ (eq_iff (id_of x) id).0 hit
    | inr other ↦ find_row-id id rows r (rw other at e)
  ]

  -- A row that is found has what all rows have.
  pub find_row-All :
      (P : Row → Type 0) (id : String) (rows : List Row) (r : Row)
      → All P rows
      → find_row id_of id rows ≡ some r
      → P r
  unfolding find_row
  find_row-All P id [] r a e = cc
  find_row-All P id (x ∷ rows) r a e = elim (Bool-cases (str_eq (id_of x) id)) [
    | inl hit ↦ let e' : some x ≡ some r = rw hit at e in let e'' : x ≡ r = cc in subst P e'' a.0
    | inr other ↦ find_row-All P id rows r a.1 (rw other at e)
  ]

  pub find_row-update_row :
      (id : String) (f : Row → Row) (rows : List Row) (r : Row)
      → ((r : Row) → str_eq (id_of r) id ≡ true → id_of (f r) ≡ id_of r)
      → find_row id_of id rows ≡ some r
      → find_row id_of id (update_row id_of id f rows) ≡ some (f r)
  unfolding find_row update_row
  find_row-update_row id f [] r keep e = cc
  find_row-update_row id f (x ∷ rows) r keep e = elim (Bool-cases (str_eq (id_of x) id)) [
    | inl hit ↦
        let e' : some x ≡ some r = rw hit at e in
        let e'' : x ≡ r = cc in rw (hit, keep x hit, hit, e'') refl
    | inr other ↦ rw (other, other) (find_row-update_row id f rows r keep (rw other at e))
  ]

  -- An insertion appends the row, whose id is fresh, or fails.
  pub insert_row-Ensures {ℓ κ} :
      {Next : Type ℓ} (P : Next → Type κ) (r : Row) (rows : List Row)
      (rest : List Row → Result Next)
      → (has_row id_of (id_of r) rows ≡ false → Ensures P (rest (rows ++ r ∷ [])))
      → Ensures P (insert_row id_of r rows >>= rest)
  unfolding insert_row
  insert_row-Ensures P r rows rest p = elim (Bool-cases (has_row id_of (id_of r) rows)) [
    | inl taken ↦ rw taken tt
    | inr fresh ↦ rw fresh (p fresh)
  ]

-- A row that fails a test of all rows fails it.
pub any-All {ℓ} :
    {A : Type ℓ} (p : A → Bool) (xs : List A) → any p xs ≡ false → All (λ x. p x ≡ false) xs
any-All p [] h = tt
any-All p (x ∷ xs) h = (ground arith, any-All p xs (ground arith))

pub all-All {ℓ} :
    {A : Type ℓ} (p : A → Bool) (xs : List A) → all p xs ≡ true → All (λ x. p x ≡ true) xs
all-All p [] h = tt
all-All p (x ∷ xs) h = (ground arith, all-All p xs (ground arith))
