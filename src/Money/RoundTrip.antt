-- ===== src/Money/RoundTrip.antt =====
-- `parse_cny` reads back what `pico_string` prints, and the two printers of amounts agree.
use deepseek_moderation_api.Prelude.{
  ℕ, zero, suc, ◌+◌, ◌-◌, ◌*◌, ◌/◌, ◌%◌, ◌≤◌, ◌<◌, ◌≡◌, ◌≢◌, refl, sym, ap, ◌∙◌, inl, inr, true,
  List, [], ◌∷◌, ◌++◌, arith, ◌==◌, Bool-cases, length, all, replicate, ok, all-append,
  length-append, some, le→leb, &&-eq_true,
}
use deepseek_moderation_api.Money.{
  cons_unless, decimal_fuel, pico_per_cny, max_int64, decimal, digits, trim_right, pico_string,
  evaluation_money_string, is_digit, trim_space, split, digits_value, parse_int, parse_parts,
  parse_split, parse_cny, digits_only,
}
use deepseek_moderation_api.Money.Digits.{
  digits_value-lt, length-digits, digits-is_digit, digits_value-digits, digits_value-decimal,
  decimal-is_digit, decimal-cons, decimal-padded,
}
use deepseek_moderation_api.Money.Trim.{
  trim_right-filled, trim_right-append, trim_right-replicate, differs, trim_right-none,
  trim_right-snoc, all-left, all_mono, is_solid, trim_space-solid, split-digits, split-point,
}

digit_differs_point : (x : ℕ) → is_digit x ≡ true → differs b'.' x ≡ true
digit_differs_point x h = ground arith

digit_is_solid : (x : ℕ) → is_digit x ≡ true → is_solid x ≡ true
digit_is_solid x h = ground arith

digits_value-zeros : (k : ℕ) → digits_value 0 (replicate k b'0') ≡ 0
unfolding digits_value
digits_value-zeros zero = refl
digits_value-zeros (suc k) = digits_value-zeros k

-- The printed fraction: what is left of the twelve digits.
abbrev fraction_of : ℕ → List ℕ
fraction_of t = trim_right b'0' (digits 12 t)

fraction-filled :
    (t : ℕ) → fraction_of t ++ replicate (12 - length (fraction_of t)) b'0' ≡ digits 12 t
fraction-filled t = rw (length-digits 12 t) at (trim_right-filled b'0' (digits 12 t)).1

fraction-short : (t : ℕ) → length (fraction_of t) ≤ 12
fraction-short t = omega (arith, length-digits 12 t, (trim_right-filled b'0' (digits 12 t)).0)

fraction-is_digit : (t : ℕ) → all is_digit (fraction_of t) ≡ true
fraction-is_digit t =
    all-left is_digit (fraction_of t) (replicate (12 - length (fraction_of t)) b'0')
      (rw (fraction-filled t) (digits-is_digit 12 t))

fraction-value :
    (t : ℕ)
    → t < pico_per_cny
    → digits_value 0 (fraction_of t ++ replicate (12 - length (fraction_of t)) b'0') ≡ t
fraction-value t h = rw (fraction-filled t) (digits_value-digits 12 t h)

fraction-cons :
    (t : ℕ) → t < pico_per_cny → t ≢ 0 → (c : ℕ) × (cs : List ℕ) × (fraction_of t ≡ c ∷ cs)
fraction-cons t h nz = go (fraction_of t) refl
  where
    go : (f : List ℕ) → fraction_of t ≡ f → (c : ℕ) × (cs : List ℕ) × (f ≡ c ∷ cs)
    go [] e = absurd (nz (sym (fraction-value t h) ∙ rw e (digits_value-zeros 12)))
    go (c ∷ cs) e = (c, cs, refl)

-- Trimming the zeros stops at the point at the latest.
trim_zeros : (w ds : List ℕ) → trim_right b'0' (w ++ b'.' ∷ ds) ≡ w ++ b'.' ∷ trim_right b'0' ds
unfolding trim_right
trim_zeros w ds = trim_right-append b'0' w (b'.' ∷ ds) b'.' (trim_right b'0' ds) (point ds)
  where
    behind : (t : List ℕ) → cons_unless b'0' b'.' t ≡ b'.' ∷ t
    behind [] = refl
    behind (x ∷ xs) = refl

    point : (ds : List ℕ) → trim_right b'0' (b'.' ∷ ds) ≡ b'.' ∷ trim_right b'0' ds
    point ds = behind (trim_right b'0' ds)

digits-untrimmed : (w : List ℕ) → all is_digit w ≡ true → trim_right b'.' w ≡ w
digits-untrimmed w h =
    trim_right-none b'.' w (all_mono is_digit (differs b'.') w digit_differs_point h)

trim_point : (w : List ℕ) → all is_digit w ≡ true → trim_right b'.' (w ++ b'.' ∷ []) ≡ w
trim_point w h = trim_right-snoc b'.' w ∙ digits-untrimmed w h

trim_fraction :
    (w f : List ℕ) (c : ℕ) (cs : List ℕ)
    → all is_digit f ≡ true
    → f ≡ c ∷ cs
    → trim_right b'.' (w ++ b'.' ∷ f) ≡ w ++ b'.' ∷ f
trim_fraction w f c cs h e =
    trim_right-append b'.' w (b'.' ∷ f) b'.' f
      (trim_right-append b'.' (b'.' ∷ []) f c cs (digits-untrimmed f h ∙ e) ∙ ap (◌∷◌ b'.') (sym e))

-- What is printed: the whole part alone, or with the trimmed fraction behind a point.
pico_string-whole : (v : ℕ) → v % pico_per_cny ≡ 0 → pico_string v ≡ decimal (v / pico_per_cny)
unfolding pico_string
pico_string-whole v e = elim (Bool-cases (v == 0)) [
  | inl z ↦ let v0 : v ≡ 0 = ground arith in rw v0 (unfold decimal decimal_fuel in refl)
  | inr nz ↦
      rw (nz, e, trim_zeros (decimal (v / pico_per_cny)) (digits 12 0), none_left)
        (trim_point (decimal (v / pico_per_cny)) (decimal-is_digit _))
]
  where
    none_left : trim_right b'0' (digits 12 0) ≡ []
    none_left = unfold digits in trim_right-replicate b'0' 12

pico_string-fraction :
    (v : ℕ)
    → v % pico_per_cny ≢ 0
    → pico_string v ≡ decimal (v / pico_per_cny) ++ b'.' ∷ fraction_of (v % pico_per_cny)
unfolding pico_string
pico_string-fraction v h = elim (Bool-cases (v == 0)) [
  | inl z ↦ absurd (h (ground arith))
  | inr nz ↦
      let (c, cs, e) = fraction-cons (v % pico_per_cny) (omega arith) h in
      rw (nz, trim_zeros (decimal (v / pico_per_cny)) (digits 12 (v % pico_per_cny)))
        (trim_fraction (decimal (v / pico_per_cny)) (fraction_of (v % pico_per_cny)) c cs
          (fraction-is_digit (v % pico_per_cny)) e)
]

-- The printers of the billing part and of the evaluation part give the same text for each amount.
pub pico_string-eq-evaluation_money_string : (v : ℕ) → pico_string v ≡ evaluation_money_string v
unfolding evaluation_money_string
pico_string-eq-evaluation_money_string v = elim (Bool-cases (v % pico_per_cny == 0)) [
  | inl whole ↦ rw whole (pico_string-whole v (ground arith))
  | inr part ↦
      rw (part, decimal-padded 11 (v % pico_per_cny) (omega arith))
        (pico_string-fraction v (ground arith))
]

abbrev pub amount_limit : ℕ
amount_limit = 100000 * pico_per_cny

parse_int-decimal : (n : ℕ) → n ≤ 100000 → parse_int (decimal n) ≡ some n
unfolding parse_int
parse_int-decimal n h =
    let (c, cs, e) = decimal-cons n in
    let value : digits_value 0 (c ∷ cs) ≡ n = rw e at (digits_value-decimal n) in
    rw e (rw (value, le→leb n max_int64 (omega arith)))

parse_parts-ok :
    (text f : List ℕ) (w t : ℕ)
    → parse_int text ≡ some w
    → digits_value 0 (f ++ replicate (12 - length f) b'0') ≡ t
    → length f ≤ 12
    → w * pico_per_cny + t ≤ amount_limit
    → parse_parts text f ≡ ok (w * pico_per_cny + t)
unfolding parse_parts
parse_parts-ok text f w t p v short small = ground arith

parse_plain :
    (text : List ℕ) (c : ℕ) (cs : List ℕ)
    → text ≡ c ∷ cs
    → all is_digit text ≡ true
    → parse_cny text ≡ parse_parts text []
unfolding parse_cny
parse_plain text c cs e h =
    rw
      (
        trim_space-solid text (all_mono is_digit is_solid text digit_is_solid h),
        split-digits text h,
      )
      (rw e (rw (rw e at h)))

parse_point :
    (text : List ℕ) (c : ℕ) (cs f : List ℕ)
    → text ≡ c ∷ cs
    → all is_digit text ≡ true
    → all is_digit f ≡ true
    → parse_cny (text ++ b'.' ∷ f) ≡ parse_parts text f
unfolding parse_cny
parse_point text c cs f e h hf =
    rw (trim_space-solid (text ++ b'.' ∷ f) solid, split-point text f h hf)
      (rw e (rw (rw e at h, hf)))
  where
    solid : all is_solid (text ++ b'.' ∷ f) ≡ true
    solid =
        all-append is_solid text (b'.' ∷ f) (all_mono is_digit is_solid text digit_is_solid h)
          (all_mono is_digit is_solid f digit_is_solid hf)

-- Every amount up to the limit of 100000 CNY is read back exactly from its printed text.
pub parse_cny-pico_string : (v : ℕ) → v ≤ amount_limit → parse_cny (pico_string v) ≡ ok v
parse_cny-pico_string v h = elim (Bool-cases (v % pico_per_cny == 0)) [
  | inl whole ↦
      let (c, cs, e) = decimal-cons (v / pico_per_cny) in
      let z : v % pico_per_cny ≡ 0 = ground arith in
      rw (pico_string-whole v z) (
        parse_plain (decimal (v / pico_per_cny)) c cs e (decimal-is_digit _)
        ∙ parse_parts-ok (decimal (v / pico_per_cny)) [] (v / pico_per_cny) 0
            (parse_int-decimal _ (omega arith)) (digits_value-zeros 12) (omega arith) (omega arith)
        ∙ ap ok (omega arith))
  | inr part ↦
      let (c, cs, e) = decimal-cons (v / pico_per_cny) in
      let t = v % pico_per_cny in
      rw (pico_string-fraction v (ground arith)) (
        parse_point (decimal (v / pico_per_cny)) c cs (fraction_of t) e (decimal-is_digit _)
          (fraction-is_digit t)
        ∙ parse_parts-ok (decimal (v / pico_per_cny)) (fraction_of t) (v / pico_per_cny) t
            (parse_int-decimal _ (omega arith)) (fraction-value t (omega arith)) (fraction-short t)
            (omega arith)
        ∙ ap ok (omega arith))
]

filled_fraction-lt :
    (f : List ℕ)
    → all is_digit f ≡ true
    → length f ≤ 12
    → digits_value 0 (f ++ replicate (12 - length f) b'0') < pico_per_cny
filled_fraction-lt f h short =
    let n : length (f ++ replicate (12 - length f) b'0') ≡ 12 =
      omega
        (arith, length-append f (replicate (12 - length f) b'0'), length-zeros (12 - length f)) in
    rw n at (
      digits_value-lt 0 (f ++ replicate (12 - length f) b'0')
        (all-append is_digit f (replicate (12 - length f) b'0') h (zeros (12 - length f))))
  where
    zeros : (k : ℕ) → all is_digit (replicate k b'0') ≡ true
    zeros zero = refl
    zeros (suc k) = zeros k

    length-zeros : (k : ℕ) → length (replicate {A = ℕ} k b'0') ≡ k
    length-zeros zero = refl
    length-zeros (suc k) = ap suc (length-zeros k)

parse_parts-bounded :
    (text f : List ℕ) (v : ℕ) → all is_digit f ≡ true → parse_parts text f ≡ ok v → v ≤ amount_limit
unfolding parse_parts
parse_parts-bounded text f v d h = ground (arith, filled_fraction-lt f d)

parse_split-bounded : (parts : List (List ℕ)) (v : ℕ) → parse_split parts ≡ ok v → v ≤ amount_limit
unfolding parse_split
parse_split-bounded [] v h = cc
parse_split-bounded ([] ∷ ps) v h = cc
parse_split-bounded ((c ∷ cs) ∷ []) v h = elim (Bool-cases (digits_only ((c ∷ cs) ∷ []))) [
  | inl fine ↦ parse_parts-bounded (c ∷ cs) [] v refl (rw fine at h)
  | inr bad ↦ cc (rw bad at h)
]
parse_split-bounded ((c ∷ cs) ∷ f ∷ []) v h = elim (Bool-cases (digits_only ((c ∷ cs) ∷ f ∷ []))) [
  | inl fine ↦
      parse_parts-bounded (c ∷ cs) f v
        (&&-eq_true (all is_digit f) true (&&-eq_true (all is_digit (c ∷ cs)) _ fine).1).0
        (rw fine at h)
  | inr bad ↦ cc (rw bad at h)
]
parse_split-bounded ((c ∷ cs) ∷ f ∷ g ∷ ps) v h = cc

-- An accepted amount is at most 100000 CNY, so it fits an int64, and its printed text is accepted
-- again with the same value.
pub parse_cny-canonical :
    (s : List ℕ) (v : ℕ)
    → parse_cny s ≡ ok v
    → (v ≤ amount_limit) × (v ≤ max_int64) × (parse_cny (pico_string v) ≡ ok v)
unfolding parse_cny
parse_cny-canonical s v h =
    let bound = parse_split-bounded (split b'.' (trim_space s)) v h in
    (bound, omega arith, parse_cny-pico_string v bound)
