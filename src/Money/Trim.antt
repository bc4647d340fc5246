-- ===== src/Money/Trim.antt =====
-- What trimming and splitting do to the texts that `pico_string` makes.
use mathlib.Core.Path.{ap₂}
use deepseek_moderation_api.Prelude.{
  ℕ, zero, suc, ◌-◌, ◌≤◌, ◌≡◌, refl, ap, inl, inr, Bool, true, false, List, [], ◌∷◌, ◌++◌, arith,
  ◌==◌, if◌then◌else◌, Bool-cases, &&-eq_true, length, all, replicate,
}
use deepseek_moderation_api.Money.{
  trim_right, cons_unless, trim_left_space, trim_right_space, trim_space, is_space, is_digit, split,
}

Filled : ℕ → List ℕ → List ℕ → Type 0
Filled c t xs = (length t ≤ length xs) × (t ++ replicate (length xs - length t) c ≡ xs)

cons_unless-Filled :
    (c x : ℕ) (xs t : List ℕ) → Filled c t xs → Filled c (cons_unless c x t) (x ∷ xs)
unfolding Filled
cons_unless-Filled c x xs [] (b, e) =
    let short : length xs - 0 ≡ length xs = omega arith in
    let long : suc (length xs) - 0 ≡ suc (length xs) = omega arith in
    let one : suc (length xs) - suc zero ≡ length xs = omega arith in
    let e' : replicate (length xs) c ≡ xs = rw short at e in
    elim (Bool-cases (x == c)) [
      | inl same ↦ let xc : c ≡ x = ground arith in rw same (omega arith, rw long (ap₂ ◌∷◌ xc e'))
      | inr other ↦ rw other (omega arith, rw one (ap (◌∷◌ x) e'))
    ]
cons_unless-Filled c x xs (y ∷ ys) (b, e) =
    let less : suc (length xs) - suc (suc (length ys)) ≡ length xs - suc (length ys) =
      omega arith in
    (omega arith, rw less (ap (◌∷◌ x) e))

-- Trimming a character and filling up with it again gives the text back.
trim_right-Filled : (c : ℕ) (xs : List ℕ) → Filled c (trim_right c xs) xs
unfolding trim_right Filled
trim_right-Filled c [] = (omega arith, refl)
trim_right-Filled c (x ∷ xs) = cons_unless-Filled c x xs (trim_right c xs) (trim_right-Filled c xs)

pub trim_right-filled :
    (c : ℕ) (xs : List ℕ)
    → (length (trim_right c xs) ≤ length xs)
      × (trim_right c xs ++ replicate (length xs - length (trim_right c xs)) c ≡ xs)
unfolding Filled
trim_right-filled c xs = trim_right-Filled c xs

pub trim_right-append :
    (c : ℕ) (xs ys : List ℕ) (z : ℕ) (zs : List ℕ)
    → trim_right c ys ≡ z ∷ zs
    → trim_right c (xs ++ ys) ≡ xs ++ z ∷ zs
unfolding trim_right
trim_right-append c [] ys z zs e = e
trim_right-append c (x ∷ []) ys z zs e = rw e
trim_right-append c (x ∷ y ∷ xs) ys z zs e = rw (trim_right-append c (y ∷ xs) ys z zs e)

pub trim_right-replicate : (c k : ℕ) → trim_right c (replicate k c) ≡ []
unfolding trim_right
trim_right-replicate c zero = refl
trim_right-replicate c (suc k) = rw (trim_right-replicate c k) (ground arith)

abbrev pub differs : ℕ → ℕ → Bool
differs c x = if x == c then false else true

pub trim_right-none : (c : ℕ) (xs : List ℕ) → all (differs c) xs ≡ true → trim_right c xs ≡ xs
unfolding trim_right
trim_right-none c [] h = refl
trim_right-none c (x ∷ []) h = ground arith
trim_right-none c (x ∷ y ∷ xs) h = rw (trim_right-none c (y ∷ xs) (ground arith))

pub trim_right-snoc : (c : ℕ) (xs : List ℕ) → trim_right c (xs ++ c ∷ []) ≡ trim_right c xs
unfolding trim_right
trim_right-snoc c [] = ground arith
trim_right-snoc c (x ∷ xs) = rw (trim_right-snoc c xs)

pub all-left : (p : ℕ → Bool) (xs ys : List ℕ) → all p (xs ++ ys) ≡ true → all p xs ≡ true
all-left p [] ys h = refl
all-left p (x ∷ xs) ys h = ground (arith, all-left p xs ys)

pub all_mono :
    (p q : ℕ → Bool) (xs : List ℕ)
    → ((x : ℕ) → p x ≡ true → q x ≡ true)
    → all p xs ≡ true
    → all q xs ≡ true
all_mono p q [] f h = refl
all_mono p q (x ∷ xs) f h = ground (arith, f x, all_mono p q xs f)

abbrev pub is_solid : ℕ → Bool
is_solid c = if is_space c then false else true

solid_not_blank : (x : ℕ) → is_space x ≡ true → is_solid x ≡ true → ⊥
solid_not_blank x blank solid = cc (rw blank at solid)

trim_right_space-solid : (xs : List ℕ) → all is_solid xs ≡ true → trim_right_space xs ≡ xs
unfolding trim_right_space
trim_right_space-solid [] h = refl
trim_right_space-solid (x ∷ []) h = elim (Bool-cases (is_space x)) [
  | inl blank ↦ absurd (solid_not_blank x blank (&&-eq_true (is_solid x) true h).0)
  | inr solid ↦ rw solid
]
trim_right_space-solid (x ∷ y ∷ xs) h =
    rw (trim_right_space-solid (y ∷ xs) (&&-eq_true (is_solid x) _ h).1)

pub trim_space-solid : (xs : List ℕ) → all is_solid xs ≡ true → trim_space xs ≡ xs
unfolding trim_space trim_left_space
trim_space-solid [] h = unfold trim_right_space in refl
trim_space-solid (x ∷ xs) h = elim (Bool-cases (is_space x)) [
  | inl blank ↦ absurd (solid_not_blank x blank (&&-eq_true (is_solid x) _ h).0)
  | inr solid ↦ rw solid (trim_right_space-solid (x ∷ xs) h)
]

pub split-digits : (w : List ℕ) → all is_digit w ≡ true → split b'.' w ≡ w ∷ []
unfolding split
split-digits [] h = refl
split-digits (x ∷ xs) h = rw (split-digits xs (ground arith)) (ground arith)

pub split-point :
    (w f : List ℕ)
    → all is_digit w ≡ true
    → all is_digit f ≡ true
    → split b'.' (w ++ b'.' ∷ f) ≡ w ∷ f ∷ []
unfolding split
split-point [] f hw hf = rw (split-digits f hf)
split-point (x ∷ xs) f hw hf = rw (split-point xs f (ground arith) hf) (ground arith)
