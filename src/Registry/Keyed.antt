-- ===== src/Registry/Keyed.antt =====
-- Tables whose rows have distinct ids (internal/audit/store.go: the primary keys).
use deepseek_moderation_api.Prelude.{
  ◌≡◌, refl, ◌∙◌, true, false, List, [], ◌∷◌, ◌++◌, some, String, str_eq, arith, eq_iff, All,
  Bool-cases, inl, inr,
}
use deepseek_moderation_api.Registry.Rows.{has_row-update_row}
use mathlib.Core.Path.{subst}
use deepseek_moderation_api.Registry.Tables.{has_row, find_row, update_row, remove_row}

module _ {Row : Type 0} (id_of : Row → String) where
  -- The ids of the rows are distinct.
  abbrev pub IsKeyed : List Row → Type 0
  IsKeyed [] = Unit {0}
  IsKeyed (r ∷ rows) = (has_row id_of (id_of r) rows ≡ false) × IsKeyed rows

  not_has_row-append :
      (j : String) (rows : List Row) (r : Row)
      → has_row id_of j rows ≡ false
      → str_eq (id_of r) j ≡ false
      → has_row id_of j (rows ++ r ∷ []) ≡ false
  not_has_row-append j [] r h n = ground arith
  not_has_row-append j (x ∷ rows) r h n = ground (arith, not_has_row-append j rows r)

  pub append-IsKeyed :
      (rows : List Row) (r : Row)
      → has_row id_of (id_of r) rows ≡ false
      → IsKeyed rows
      → IsKeyed (rows ++ r ∷ [])
  append-IsKeyed [] r fresh k = (refl, tt)
  append-IsKeyed (x ∷ rows) r fresh k = (
    not_has_row-append (id_of x) rows r k.0
        (ground (arith, eq_iff (id_of x) (id_of r), eq_iff (id_of r) (id_of x))),
    append-IsKeyed rows r (ground arith) k.1,
  )

  pub update_row-IsKeyed :
      (id : String) (f : Row → Row) (rows : List Row)
      → ((r : Row) → str_eq (id_of r) id ≡ true → id_of (f r) ≡ id_of r)
      → IsKeyed rows
      → IsKeyed (update_row id_of id f rows)
  unfolding update_row
  update_row-IsKeyed id f [] keep k = tt
  update_row-IsKeyed id f (r ∷ rows) keep k = elim (Bool-cases (str_eq (id_of r) id)) [
    | inl hit ↦
        rw (hit, keep r hit)
          (
            has_row-update_row id_of (id_of r) id f rows keep ∙ k.0,
            update_row-IsKeyed id f rows keep k.1,
          )
    | inr other ↦ rw other (
      has_row-update_row id_of (id_of r) id f rows keep ∙ k.0,
      update_row-IsKeyed id f rows keep k.1,
    )
  ]

  not_has_row-remove_row :
      (j id : String) (rows : List Row)
      → has_row id_of j rows ≡ false
      → has_row id_of j (remove_row id_of id rows) ≡ false
  unfolding remove_row
  not_has_row-remove_row j id [] h = h
  not_has_row-remove_row j id (r ∷ rows) h = ground (arith, not_has_row-remove_row j id rows)

  pub remove_row-IsKeyed :
      (id : String) (rows : List Row) → IsKeyed rows → IsKeyed (remove_row id_of id rows)
  unfolding remove_row
  remove_row-IsKeyed id [] k = tt
  remove_row-IsKeyed id (r ∷ rows) k = elim (Bool-cases (str_eq (id_of r) id)) [
    | inl hit ↦ rw hit (remove_row-IsKeyed id rows k.1)
    | inr other ↦
        rw other (not_has_row-remove_row (id_of r) id rows k.0, remove_row-IsKeyed id rows k.1)
  ]

  -- An update for an id that no row has changes nothing.
  update_row-absent :
      (id : String) (f : Row → Row) (rows : List Row)
      → has_row id_of id rows ≡ false
      → update_row id_of id f rows ≡ rows
  unfolding update_row
  update_row-absent id f [] h = refl
  update_row-absent id f (r ∷ rows) h = ground (arith, update_row-absent id f rows)

  -- Where ids are distinct, an update changes the row that is found.
  pub update_found-All :
      (P : Row → Type 0) (id : String) (f : Row → Row) (rows : List Row) (r : Row)
      → IsKeyed rows
      → find_row id_of id rows ≡ some r
      → P (f r)
      → All P rows
      → All P (update_row id_of id f rows)
  unfolding find_row update_row
  update_found-All P id f [] r k e p a = tt
  update_found-All P id f (x ∷ rows) r k e p a = elim (Bool-cases (str_eq (id_of x) id)) [
    | inl hit ↦
        let e' : some x ≡ some r = rw hit at e in
        let e'' : x ≡ r = cc in
        let same : id_of x ≡ id = (eq_iff (id_of x) id).0 hit in
        let gone : has_row id_of id rows ≡ false =
          subst (λ j. has_row id_of j rows ≡ false) same k.0 in
        rw (hit, e'', update_row-absent id f rows gone) (p, a.1)
    | inr other ↦ rw other (a.0, update_found-All P id f rows r k.1 (rw other at e) p a.1)
  ]
