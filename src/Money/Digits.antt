-- ===== src/Money/Digits.antt =====
-- Decimal digits and the numbers that they stand for.
use native.Mathlib.Nat.{pow-suc}
use mathlib.Core.List.{append_assoc}
use deepseek_moderation_api.Prelude.{
  ℕ, zero, suc, ◌+◌, ◌-◌, ◌*◌, ◌/◌, ◌%◌, ◌^◌, ◌≤◌, ◌<◌, ◌≡◌, refl, sym, ap, ◌∙◌, true, List, [],
  ◌∷◌, ◌++◌, arith, ltb, ltb→lt, Bool-cases, inl, inr, length, length-append, all, all-append,
  replicate,
}
use deepseek_moderation_api.Money.{decimal, decimal_fuel, digits, digits_value, is_digit}

pub digits_value-append :
    (acc : ℕ) (xs ys : List ℕ) → digits_value acc (xs ++ ys) ≡ digits_value (digits_value acc xs) ys
unfolding digits_value
digits_value-append acc [] ys = refl
digits_value-append acc (x ∷ xs) ys = digits_value-append (acc * 10 + (x - b'0')) xs ys

pub length-digits : (k n : ℕ) → length (digits k n) ≡ k
unfolding digits
length-digits zero n = refl
length-digits (suc k) n =
    omega
      (arith, length-append (digits k (n / 10)) ((b'0' + n % 10) ∷ []), length-digits k (n / 10))

pub digits-is_digit : (k n : ℕ) → all is_digit (digits k n) ≡ true
unfolding digits
digits-is_digit zero n = refl
digits-is_digit (suc k) n =
    all-append is_digit (digits k (n / 10)) _ (digits-is_digit k (n / 10)) (ground arith)

-- Digits stand for less than the power of ten that their number gives.
pub digits_value-lt :
    (acc : ℕ) (xs : List ℕ)
    → all is_digit xs ≡ true
    → digits_value acc xs < (acc + 1) * 10 ^ length xs
unfolding digits_value
digits_value-lt acc [] h = omega arith
digits_value-lt acc (x ∷ xs) h =
    let ih = digits_value-lt (acc * 10 + (x - b'0')) xs (ground arith) in
    let d : x - b'0' ≤ 9 = ground arith in
    let e : 10 ^ suc (length xs) ≡ 10 ^ length xs * 10 = pow-suc 10 (length xs) in
    let m : (acc * 10 + (x - b'0') + 1) * 10 ^ length xs ≤ (acc + 1) * 10 * 10 ^ length xs =
      grind arith in
    rw e (less _ (acc * 10 + (x - b'0') + 1) (10 ^ length xs) ih m)
  where
    less : (a b p : ℕ) → a < b * p → b * p ≤ (acc + 1) * 10 * p → a < (acc + 1) * (p * 10)
    less a b p i m = grind arith

below_tenth : (k n : ℕ) → n < 10 ^ suc k → n / 10 < 10 ^ k
below_tenth k n h = let e : 10 ^ suc k ≡ 10 ^ k * 10 = pow-suc 10 k in omega (arith, e)

pub digits_value-digits : (k n : ℕ) → n < 10 ^ k → digits_value 0 (digits k n) ≡ n
unfolding digits digits_value
digits_value-digits zero n h = omega arith
digits_value-digits (suc k) n h =
    digits_value-append 0 (digits k (n / 10)) ((b'0' + n % 10) ∷ [])
    ∙ omega (arith, digits_value-digits k (n / 10) (below_tenth k n h))

decimal_fuel-value : (f n : ℕ) → n < f → digits_value 0 (decimal_fuel f n) ≡ n
unfolding decimal_fuel digits_value
decimal_fuel-value zero n h = elim h [ ]
decimal_fuel-value (suc f) n h = elim (Bool-cases (ltb n 10)) [
  | inl small ↦ rw small (omega arith)
  | inr large ↦ rw large (
      digits_value-append 0 (decimal_fuel f (n / 10)) ((b'0' + n % 10) ∷ [])
      ∙ ground (arith, decimal_fuel-value f (n / 10)))
]

decimal_fuel-is_digit : (f n : ℕ) → all is_digit (decimal_fuel f n) ≡ true
unfolding decimal_fuel
decimal_fuel-is_digit zero n = refl
decimal_fuel-is_digit (suc f) n = ground (
  arith,
  all-append is_digit (decimal_fuel f (n / 10)) ((b'0' + n % 10) ∷ [])
      (decimal_fuel-is_digit f (n / 10)),
)

pub digits_value-decimal : (n : ℕ) → digits_value 0 (decimal n) ≡ n
unfolding decimal
digits_value-decimal n = decimal_fuel-value (suc n) n (omega arith)

pub decimal-is_digit : (n : ℕ) → all is_digit (decimal n) ≡ true
unfolding decimal
decimal-is_digit n = decimal_fuel-is_digit (suc n) n

cons_of_append : (xs : List ℕ) (y : ℕ) → (c : ℕ) × (cs : List ℕ) × (xs ++ y ∷ [] ≡ c ∷ cs)
cons_of_append [] y = (y, [], refl)
cons_of_append (x ∷ xs) y = (x, xs ++ y ∷ [], refl)

pub decimal-cons : (n : ℕ) → (c : ℕ) × (cs : List ℕ) × (decimal n ≡ c ∷ cs)
unfolding decimal decimal_fuel
decimal-cons n = elim (Bool-cases (ltb n 10)) [
  | inl small ↦ (b'0' + n, [], rw small)
  | inr large ↦
      let (c, cs, e) = cons_of_append (decimal_fuel n (n / 10)) (b'0' + n % 10) in
      (c, cs, rw large e)
]

replicate-append : (c k : ℕ) → replicate k c ++ c ∷ [] ≡ replicate (suc k) c
replicate-append c zero = refl
replicate-append c (suc k) = ap (◌∷◌ c) (replicate-append c k)

digits-zero : (k : ℕ) → digits k 0 ≡ replicate k b'0'
unfolding digits
digits-zero zero = refl
digits-zero (suc k) = rw (digits-zero k) (replicate-append b'0' k)

padded_small :
    (k n : ℕ)
    → n < 10
    → replicate (suc k - 1) b'0' ++ (b'0' + n) ∷ [] ≡ digits k (n / 10) ++ (b'0' + n % 10) ∷ []
padded_small k n h =
    let e : suc k - 1 ≡ k = omega arith in
    let q : n / 10 ≡ 0 = omega arith in
    let r : n % 10 ≡ n = omega arith in rw (e, q, r, digits-zero k)

padded_append :
    (k : ℕ) (ds : List ℕ) (d : ℕ)
    → length ds ≤ k
    → replicate (suc k - length (ds ++ d ∷ [])) b'0' ++ (ds ++ d ∷ [])
      ≡ (replicate (k - length ds) b'0' ++ ds) ++ d ∷ []
padded_append k ds d h =
    let e : suc k - length (ds ++ d ∷ []) ≡ k - length ds =
      omega (arith, length-append ds (d ∷ [])) in
    rw e (sym (append_assoc (replicate (k - length ds) b'0') ds (d ∷ [])))

decimal_fuel-padded :
    (k f n : ℕ)
    → n < f
    → n < 10 ^ suc k
    → (length (decimal_fuel f n) ≤ suc k)
      × (replicate (suc k - length (decimal_fuel f n)) b'0' ++ decimal_fuel f n ≡ digits (suc k) n)
unfolding decimal_fuel digits
decimal_fuel-padded k zero n h b = elim h [ ]
decimal_fuel-padded zero (suc f) n h b = elim (Bool-cases (ltb n 10)) [
  | inl small ↦ rw small (omega arith, padded_small 0 n (ltb→lt n 10 small))
  | inr large ↦ absurd (ground arith)
]
decimal_fuel-padded (suc k) (suc f) n h b = elim (Bool-cases (ltb n 10)) [
  | inl small ↦ rw small (omega arith, padded_small (suc k) n (ltb→lt n 10 small))
  | inr large ↦
      let (fits, ih) = decimal_fuel-padded k f (n / 10) (ground arith) (below_tenth (suc k) n b) in
      let ds = decimal_fuel f (n / 10) in
      let d : ℕ = b'0' + n % 10 in
      rw large (
        omega (arith, length-append ds (d ∷ [])),
        padded_append (suc k) ds d fits ∙ ap (λ (xs : List ℕ). xs ++ d ∷ []) ih,
      )
]

-- Zeros on the left make the shortest digits into a fixed number of them.
pub decimal-padded :
    (k n : ℕ)
    → n < 10 ^ suc k
    → replicate (suc k - length (decimal n)) b'0' ++ decimal n ≡ digits (suc k) n
unfolding decimal
decimal-padded k n b = (decimal_fuel-padded k (suc n) n (omega arith) b).1
