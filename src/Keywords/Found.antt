-- ===== src/Keywords/Found.antt =====
-- A keyword is found wherever it stands (internal/audit/keyword_block.go and keyword_ignore.go).
use deepseek_moderation_api.Prelude.{
  ℕ, ◌≡◌, refl, Bool, true, false, not, ◌&&◌, List, [], ◌∷◌, ◌++◌, arith, ◌==◌, any, all, inl, inr,
  Bool-cases, &&-eq_true, length, leb,
}
use deepseek_moderation_api.Keywords.{
  contains, has_prefix, has_part, is_blank, matches, applies, validate_keyword_list,
}

has_prefix-append : (k rest : List ℕ) → has_prefix (k ++ rest) k ≡ true
unfolding has_prefix
has_prefix-append [] rest = refl
has_prefix-append (c ∷ k) rest = ground (arith, has_prefix-append k rest)

prefix_has_part : (text k : List ℕ) → has_prefix text k ≡ true → has_part text k ≡ true
unfolding has_part
prefix_has_part [] k h = h
prefix_has_part (c ∷ text) k h = rw h refl

has_part-append : (before k rest : List ℕ) → has_part (before ++ k ++ rest) k ≡ true
unfolding has_part
has_part-append [] k rest = prefix_has_part (k ++ rest) k (has_prefix-append k rest)
has_part-append (c ∷ before) k rest = ground (arith, has_part-append before k rest)

has_prefix-split :
    (text k : List ℕ) → has_prefix text k ≡ true → (rest : List ℕ) × (text ≡ k ++ rest)
unfolding has_prefix
has_prefix-split text [] h = (text, refl)
has_prefix-split [] (c ∷ k) h = cc
has_prefix-split (t ∷ text) (c ∷ k) h =
    let (same, more) = &&-eq_true (t == c) (has_prefix text k) h in
    let (rest, e) = has_prefix-split text k more in
    let first : t ≡ c = ground arith in (rest, cc (first, e))

has_part-split :
    (text k : List ℕ)
    → has_part text k ≡ true
    → (before : List ℕ) × (rest : List ℕ) × (text ≡ before ++ k ++ rest)
unfolding has_part
has_part-split [] k h = let (rest, e) = has_prefix-split [] k h in ([], rest, e)
has_part-split (t ∷ text) k h = elim (Bool-cases (has_prefix (t ∷ text) k)) [
  | inl here ↦ let (rest, e) = has_prefix-split (t ∷ text) k here in ([], rest, e)
  | inr further ↦
      let (before, rest, e) = has_part-split text k (rw further at h) in (t ∷ before, rest, cc e)
]

-- In the mode `contains` a keyword that is not blank matches exactly the texts in which it stands
-- somewhere.
pub matches-contains :
    (text k : List ℕ)
    → is_blank k ≡ false
    → ((before rest : List ℕ) → text ≡ before ++ k ++ rest → matches contains text k ≡ true)
      × (matches contains text k ≡ true
          → (before : List ℕ) × (rest : List ℕ) × (text ≡ before ++ k ++ rest))
unfolding matches
matches-contains text k b = (
  λ before rest e. rw (b, e) (has_part-append before k rest),
  λ h. has_part-split text k (rw b at h),
)

any-insert :
    (p : List ℕ → Bool) (xs : List (List ℕ)) (k : List ℕ) (ys : List (List ℕ))
    → p k ≡ true
    → any p (xs ++ k ∷ ys) ≡ true
any-insert p [] k ys h = rw h refl
any-insert p (x ∷ xs) k ys h = ground (arith, any-insert p xs k ys h)

all-insert :
    (p : List ℕ → Bool) (xs : List (List ℕ)) (k : List ℕ) (ys : List (List ℕ))
    → all p (xs ++ k ∷ ys) ≡ true
    → p k ≡ true
all-insert p [] k ys h = (&&-eq_true (p k) (all p ys) h).0
all-insert p (x ∷ xs) k ys h = all-insert p xs k ys (&&-eq_true (p x) _ h).1

-- Each keyword of a list that passes validation decides: an enabled rule applies to every text in
-- which one of its keywords stands, whatever is before and behind it.
pub applies-listed :
    (xs : List (List ℕ)) (k : List ℕ) (ys : List (List ℕ)) (before rest : List ℕ)
    → validate_keyword_list (xs ++ k ∷ ys) ≡ true
    → applies
        (record { enabled = true; mode = contains; keywords = xs ++ k ∷ ys })
        (before ++ k ++ rest)
      ≡ true
unfolding applies validate_keyword_list
applies-listed xs k ys before rest v =
    let usable = λ (k : List ℕ). not (is_blank k) && leb (length k) 1000 in
    let listed = (&&-eq_true _ (all usable (xs ++ k ∷ ys)) (&&-eq_true _ _ v).0).1 in
    let kept = (&&-eq_true _ _ (all-insert usable xs k ys listed)).0 in
    any-insert (matches contains (before ++ k ++ rest)) xs k ys
      ((matches-contains (before ++ k ++ rest) k (not_true kept)).0 before rest refl)
  where
    not_true : {b : Bool} → not b ≡ true → b ≡ false
    not_true e = ground (arith, e)
