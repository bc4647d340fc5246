-- ===== src/ModerationInput/Parts.antt =====
-- One block of an input, against a description of what it may be
-- (internal/audit/moderation_input.go).
use deepseek_moderation_api.Prelude.{
  ℕ, ◌<◌, ◌≡◌, refl, ap, ◌∙◌, Bool, true, false, List, Option, none, some, String, str_eq, eq_iff,
  arith, leb, if◌then◌else◌, Bool-cases, inl, inr, ok, err, problem,
}
use mathlib.Core.Path.{subst}
use deepseek_moderation_api.ModerationInput.{
  AuditImage, Part, Decoders, valid_audit_image, decode_image, Piece, text_piece, image_piece,
  read_text, keep_image, read_kind, read_part,
}

module _ {Raw : Type 0} (decode : Decoders Raw) where
  -- A text block has a text and no image; an image block has a valid image and no text.
  abbrev pub IsBlock : Part Raw → Piece → Type 0
  IsBlock p (text_piece text) = (p.kind ≡ "text") × (p.text ≡ some text) × (p.image_url ≡ none)
  IsBlock p (image_piece image) =
      (p.kind ≡ "image_url")
      × (p.text ≡ none)
      × (decode_image decode p.image_url ≡ some image)
      × (valid_audit_image decode image ≡ true)

  -- There is room for one more image.
  abbrev pub HasRoom : (max_images images : ℕ) → Piece → Type 0
  HasRoom max_images images (text_piece text) = Unit {0}
  HasRoom max_images images (image_piece image) = images < max_images

  read_text-IsBlock :
      (kind : String) (text : Option (List ℕ)) (image_url : Option Raw) (piece : Piece)
      → kind ≡ "text"
      → read_text (record { kind = kind; text = text; image_url = image_url }) ≡ ok piece
      → (max_images images : ℕ)
      → IsBlock (record { kind = kind; text = text; image_url = image_url }) piece
        × HasRoom max_images images piece
  read_text-IsBlock kind none image_url piece k e m n = cc
  read_text-IsBlock kind (some t) none (text_piece t') k e m n = ((k, cc, refl), tt)
  read_text-IsBlock kind (some t) none (image_piece i) k e m n = cc
  read_text-IsBlock kind (some t) (some i) piece k e m n = cc

  read_image-IsBlock :
      (kind : String) (text : Option (List ℕ)) (image_url : Option Raw) (found : Option AuditImage)
      (piece : Piece)
      → decode_image decode image_url ≡ found
      → kind ≡ "image_url"
      → keep_image decode text found ≡ ok piece
      → IsBlock (record { kind = kind; text = text; image_url = image_url }) piece
  read_image-IsBlock kind text image_url none piece d k e = cc
  read_image-IsBlock kind (some t) image_url (some image) piece d k e = cc
  read_image-IsBlock kind none image_url (some image) (text_piece t) d k e = ground arith
  read_image-IsBlock kind none image_url (some image) (image_piece i) d k e =
      go (valid_audit_image decode image) refl e
    where
      go :
          (b : Bool)
          → valid_audit_image decode image ≡ b
          → (if b then ok (image_piece image) else err (problem 400 "invalid_input"))
            ≡ ok (image_piece i)
          → IsBlock (record { kind = kind; text = none; image_url = image_url }) (image_piece i)
      go true v e' =
          let same : image ≡ i = cc in
          (k, refl, d ∙ ap some same, subst (λ x. valid_audit_image decode x ≡ true) same v)
      go false v e' = cc

  has_room :
      (max_images images : ℕ) (piece : Piece)
      → leb max_images images ≡ false
      → HasRoom max_images images piece
  has_room m n (text_piece t) r = tt
  has_room m n (image_piece i) r = ground arith

  read_kind-IsBlock :
      (max_images images : ℕ) (p : Part Raw) (piece : Piece)
      → read_kind decode max_images images p ≡ ok piece
      → IsBlock p piece × HasRoom max_images images piece
  read_kind-IsBlock max_images images p piece e = elim (Bool-cases (str_eq p.kind "text")) [
    | inl is_text ↦
        read_text-IsBlock p.kind p.text p.image_url piece ((eq_iff p.kind "text").0 is_text)
          (rw is_text at e) max_images images
    | inr no_text ↦ elim (Bool-cases (str_eq p.kind "image_url")) [
      | inr other ↦
          let e' : err (problem 400 "unsupported_input") ≡ ok piece = rw (no_text, other) at e in cc
      | inl is_image ↦ elim (Bool-cases (leb max_images images)) [
        | inl full ↦
            let e' : err (problem 413 "too_many_images") ≡ ok piece =
              rw (no_text, is_image, full) at e in
            cc
        | inr room ↦ (
          read_image-IsBlock p.kind p.text p.image_url (decode_image decode p.image_url) piece refl
              ((eq_iff p.kind "image_url").0 is_image) (rw (no_text, is_image, room) at e),
          has_room max_images images piece room,
        )
      ]
    ]
  ]

  pub read_part-IsBlock :
      (max_images images : ℕ) (p : Option (Part Raw)) (piece : Piece)
      → read_part decode max_images images p ≡ ok piece
      → (q : Part Raw) × (p ≡ some q) × IsBlock q piece × HasRoom max_images images piece
  read_part-IsBlock max_images images none piece e = cc
  read_part-IsBlock max_images images (some q) piece e =
      let (block, room) = read_kind-IsBlock max_images images q piece e in (q, refl, block, room)

  pub IsBlock-read_part :
      (max_images images : ℕ) (q : Part Raw) (piece : Piece)
      → IsBlock q piece
      → HasRoom max_images images piece
      → read_part decode max_images images (some q) ≡ ok piece
  IsBlock-read_part max_images images q (text_piece t) (k, e, a) room = rw (k, e, a) refl
  IsBlock-read_part max_images images q (image_piece i) (k, a, e, v) room =
      let free : leb max_images images ≡ false = ground arith in rw (k, free, e, a, v) refl
