-- ===== src/ModerationInput/Accepted.antt =====
-- The inputs that are accepted (internal/audit/moderation_input.go).
use deepseek_moderation_api.Prelude.{
  ℕ, ◌<◌, ◌≤◌, ◌≡◌, refl, ap, sym, ◌∙◌, false, ◌↔◌, List, [], ◌∷◌, none, some, arith, ltb, length,
  Bool-cases, inl, inr, ◌==◌, Result, ok, err, problem, >>=-eq-ok, refuse_if,
}
use mathlib.Core.Path.{subst}
use deepseek_moderation_api.Text.{join}
use deepseek_moderation_api.Keywords.{is_blank}
use deepseek_moderation_api.ModerationInput.{
  AuditImage, Decoders, read_parts, validate_text, finish_text, finish_input, read_array,
  read_either, parse_moderation_input,
}
use deepseek_moderation_api.ModerationInput.Blocks.{
  texts_of, images_of, AreBlocks, read_parts-AreBlocks, AreBlocks-read_parts,
}

abbrev Outcome : Type 0
Outcome = Result (List ℕ × List AuditImage)

-- A text without images has something in it.
abbrev pub IsFull : List ℕ → List AuditImage → Type 0
IsFull text [] = is_blank text ≡ false
IsFull text (image ∷ images) = Unit {0}

pub finish_text-IsFull :
    (t text : List ℕ) (is : List AuditImage)
    → finish_text t ≡ ok (text, is)
    → (is ≡ []) × (text ≡ t) × (length text ≤ 64000) × IsFull text is
unfolding finish_text validate_text
finish_text-IsFull t text is e = elim (Bool-cases (is_blank t)) [
  | inl blank ↦
      let e' : ◌≡◌ {A = Outcome} (err (problem 400 "empty_input")) (ok (text, is)) =
        rw blank at e in
      cc
  | inr full ↦ elim (Bool-cases (ltb 64000 (length t))) [
    | inl long ↦
        let e' : ◌≡◌ {A = Outcome} (err (problem 413 "input_too_large")) (ok (text, is)) =
          rw (full, long) at e in
        cc
    | inr fits ↦
        let e' : ◌≡◌ {A = Outcome} (ok (t, [])) (ok (text, is)) = rw (full, fits) at e in
        let same : t ≡ text = cc in
        let none_left : [] ≡ is = cc in
        (
          sym none_left,
          sym same,
          subst (λ x. length x ≤ 64000) same (ground arith),
          subst (λ x. IsFull text x) none_left (subst (λ x. is_blank x ≡ false) same full),
        )
  ]
]

finish_input-IsFull :
    (texts : List (List ℕ)) (images : List AuditImage) (text : List ℕ) (is : List AuditImage)
    → finish_input (texts, images) ≡ ok (text, is)
    → (is ≡ images) × (text ≡ join 10 texts) × (length text ≤ 64000) × IsFull text is
unfolding finish_input
finish_input-IsFull texts [] text is e = finish_text-IsFull (join 10 texts) text is e
finish_input-IsFull texts (image ∷ images) text is e =
    elim (Bool-cases (ltb 64000 (length (join 10 texts)))) [
      | inl long ↦
          let e' : ◌≡◌ {A = Outcome} (err (problem 413 "input_too_large")) (ok (text, is)) =
            rw long at e in
          cc
      | inr fits ↦
          let e' : ◌≡◌ {A = Outcome} (ok (join 10 texts, image ∷ images)) (ok (text, is)) =
            rw fits at e in
          let same : join 10 texts ≡ text = cc in
          let same' : image ∷ images ≡ is = cc in
          (
            sym same',
            sym same,
            subst (λ x. length x ≤ 64000) same (ground arith),
            subst (λ x. IsFull text x) same' tt,
          )
    ]

IsFull-finish_input :
    (texts : List (List ℕ)) (images : List AuditImage)
    → length (join 10 texts) ≤ 64000
    → IsFull (join 10 texts) images
    → finish_input (texts, images) ≡ ok (join 10 texts, images)
unfolding finish_input finish_text validate_text
IsFull-finish_input texts [] l full =
    let fits : ltb 64000 (length (join 10 texts)) ≡ false = ground arith in rw (full, fits) refl
IsFull-finish_input texts (image ∷ images) l full =
    let fits : ltb 64000 (length (join 10 texts)) ≡ false = ground arith in rw fits refl

module _ {Raw : Type 0} (decode : Decoders Raw) where
  -- From 1 to 1024 blocks, with not too many images and not too much text.
  abbrev pub IsInput : (max_images : ℕ) → List Raw → List ℕ → List AuditImage → Type 0
  IsInput max_images raws text images =
      (pieces : _) × AreBlocks decode raws pieces
      × (0 < length raws)
      × (length raws ≤ 1024)
      × (images ≡ images_of pieces)
      × (length images ≤ max_images)
      × (text ≡ join 10 (texts_of pieces))
      × (length text ≤ 64000)
      × IsFull text images

  parse_array :
      (max_images : ℕ) (raw : Raw) (raws : List Raw)
      → decode.text raw ≡ none
      → decode.array raw ≡ some raws
      → parse_moderation_input decode max_images raw ≡ read_array decode max_images (some raws)
  unfolding parse_moderation_input read_either
  parse_array max_images raw raws t a = rw (t, a) refl

  pub read_array-IsInput :
      (max_images : ℕ) (raws : List Raw) (text : List ℕ) (images : List AuditImage)
      → read_array decode max_images (some raws) ≡ ok (text, images)
      → IsInput max_images raws text images
  read_array-IsInput max_images raws text images e =
      let (u, some_blocks, e₁) =
        >>=-eq-ok (refuse_if (length raws == 0) (problem 400 "invalid_input")) _ e in
      let (v, few_blocks, e₂) =
        >>=-eq-ok (refuse_if (ltb 1024 (length raws)) (problem 413 "input_too_large")) _ e₁ in
      let ((ts, is), read, finished) = >>=-eq-ok (read_parts decode max_images [] [] raws) _ e₂ in
      let (pieces, blocks, et, ei, l) =
        read_parts-AreBlocks decode max_images [] [] raws ts is (ground arith) read in
      let (same, joined, fits, full) = finish_input-IsFull ts is text images finished in
      (
        pieces,
        blocks,
        ground arith,
        ground arith,
        same ∙ ei,
        subst (λ x. length x ≤ max_images) (sym same) l,
        joined ∙ ap (join 10) et,
        fits,
        full,
      )

  IsInput-read_array :
      (max_images : ℕ) (raws : List Raw) (text : List ℕ) (images : List AuditImage)
      → IsInput max_images raws text images
      → read_array decode max_images (some raws) ≡ ok (text, images)
  IsInput-read_array max_images raws text images
        (pieces, blocks, some_blocks, few, ei, l, et, fits, full) =
      let n : (length raws == 0) ≡ false = ground arith in
      let m : ltb 1024 (length raws) ≡ false = ground arith in
      let fit : length (images_of pieces) ≤ max_images = subst (λ x. length x ≤ max_images) ei l in
      let read = AreBlocks-read_parts decode max_images [] [] raws pieces blocks (omega arith) in
      let finished =
        IsFull-finish_input (texts_of pieces) (images_of pieces)
          (subst (λ x. length x ≤ 64000) et fits)
          (subst (λ x. IsFull x (images_of pieces)) et (subst (λ x. IsFull text x) ei full)) in
      rw (n, m, read, finished, et, ei) refl

  -- Where the input is no text and is an array of elements: a text and images are read from it just
  -- if each element is, on its own, a text block (a text and no image) or an image block (a valid
  -- image and no text), there are 1 to 1024 of them and at most `max_images` images, the text, which
  -- is that of the text blocks in order, one to a line, has at most 64000 characters and, without
  -- images, is not blank, and the images are those of the image blocks in order.
  pub parse_moderation_input_iff :
      (max_images : ℕ) (raw : Raw) (raws : List Raw) (text : List ℕ) (images : List AuditImage)
      → decode.text raw ≡ none
      → decode.array raw ≡ some raws
      → (parse_moderation_input decode max_images raw ≡ ok (text, images))
        ↔ IsInput max_images raws text images
  parse_moderation_input_iff max_images raw raws text images t a =
      let parsed = parse_array max_images raw raws t a in
      (
        λ e. read_array-IsInput max_images raws text images (sym parsed ∙ e),
        λ i. parsed ∙ IsInput-read_array max_images raws text images i,
      )
