-- ===== src/ModerationInput/Blocks.antt =====
-- The blocks of an input and what is made of them (internal/audit/moderation_input.go).
use deepseek_moderation_api.Prelude.{
  ℕ, ◌+◌, ◌≤◌, ◌≡◌, refl, sym, ◌∙◌, List, [], ◌∷◌, ◌++◌, some, arith, length, length-append, ok,
  >>=-eq-ok,
}
use mathlib.Core.List.{append_assoc, append-nil}
use mathlib.Core.Path.{subst}
use deepseek_moderation_api.ModerationInput.{
  AuditImage, Part, Decoders, Piece, text_piece, image_piece, add_text, add_image, read_part,
  read_parts,
}
use deepseek_moderation_api.ModerationInput.Parts.{
  IsBlock, HasRoom, read_part-IsBlock, IsBlock-read_part,
}

abbrev pub texts_of : List Piece → List (List ℕ)
texts_of [] = []
texts_of (text_piece text ∷ pieces) = text ∷ texts_of pieces
texts_of (image_piece image ∷ pieces) = texts_of pieces

abbrev pub images_of : List Piece → List AuditImage
images_of [] = []
images_of (text_piece text ∷ pieces) = images_of pieces
images_of (image_piece image ∷ pieces) = image ∷ images_of pieces

add_text-texts_of :
    (texts : List (List ℕ)) (piece : Piece) (pieces : List Piece)
    → add_text texts piece ++ texts_of pieces ≡ texts ++ texts_of (piece ∷ pieces)
add_text-texts_of texts (text_piece text) pieces = append_assoc texts (text ∷ []) (texts_of pieces)
add_text-texts_of texts (image_piece image) pieces = refl

add_image-images_of :
    (images : List AuditImage) (piece : Piece) (pieces : List Piece)
    → add_image images piece ++ images_of pieces ≡ images ++ images_of (piece ∷ pieces)
add_image-images_of images (text_piece text) pieces = refl
add_image-images_of images (image_piece image) pieces =
    append_assoc images (image ∷ []) (images_of pieces)

module _ {Raw : Type 0} (decode : Decoders Raw) where
  -- Each element of the array is a block, on its own.
  pub data AreBlocks : List Raw → List Piece → Type 0 where
    done : AreBlocks [] []
    next :
        {raw : Raw} {q : Part Raw} {piece : Piece} {raws : List Raw} {pieces : List Piece}
        → decode.part raw ≡ some q
        → IsBlock decode q piece
        → AreBlocks raws pieces
        → AreBlocks (raw ∷ raws) (piece ∷ pieces)

  room-add_image :
      (max_images : ℕ) (images : List AuditImage) (piece : Piece)
      → HasRoom decode max_images (length images) piece
      → length images ≤ max_images
      → length (add_image images piece) ≤ max_images
  room-add_image max_images images (text_piece text) r l = l
  room-add_image max_images images (image_piece image) r l =
      let n = length-append images (image ∷ []) in omega arith

  pub read_parts-AreBlocks :
      (max_images : ℕ) (texts : List (List ℕ)) (images : List AuditImage) (raws : List Raw)
      (ts : List (List ℕ)) (is : List AuditImage)
      → length images ≤ max_images
      → read_parts decode max_images texts images raws ≡ ok (ts, is)
      → (pieces : List Piece) × AreBlocks raws pieces
        × (ts ≡ texts ++ texts_of pieces)
        × (is ≡ images ++ images_of pieces)
        × (length is ≤ max_images)
  unfolding read_parts
  read_parts-AreBlocks max_images texts images [] ts is l e =
      let same : texts ≡ ts = cc in
      let same' : images ≡ is = cc in
      (
        [],
        done,
        sym same ∙ sym (append-nil texts),
        sym same' ∙ sym (append-nil images),
        subst (λ x. length x ≤ max_images) same' l,
      )
  read_parts-AreBlocks max_images texts images (raw ∷ raws) ts is l e =
      let (piece, first, rest) =
        >>=-eq-ok (read_part decode max_images (length images) (decode.part raw)) _ e in
      let (q, decoded, block, room) =
        read_part-IsBlock decode max_images (length images) (decode.part raw) piece first in
      let (pieces, blocks, et, ei, l') =
        read_parts-AreBlocks max_images (add_text texts piece) (add_image images piece) raws ts is
          (room-add_image max_images images piece room l) rest in
      (
        piece ∷ pieces,
        next decoded block blocks,
        et ∙ add_text-texts_of texts piece pieces,
        ei ∙ add_image-images_of images piece pieces,
        l',
      )

  has_room :
      (max_images : ℕ) (images : List AuditImage) (piece : Piece) (pieces : List Piece)
      → length images + length (images_of (piece ∷ pieces)) ≤ max_images
      → HasRoom decode max_images (length images) piece
        × (length (add_image images piece) + length (images_of pieces) ≤ max_images)
  has_room max_images images (text_piece text) pieces l = (tt, l)
  has_room max_images images (image_piece image) pieces l =
      let n = length-append images (image ∷ []) in (omega arith, omega arith)

  pub AreBlocks-read_parts :
      (max_images : ℕ) (texts : List (List ℕ)) (images : List AuditImage) (raws : List Raw)
      (pieces : List Piece)
      → AreBlocks raws pieces
      → length images + length (images_of pieces) ≤ max_images
      → read_parts decode max_images texts images raws
        ≡ ok (texts ++ texts_of pieces, images ++ images_of pieces)
  unfolding read_parts
  AreBlocks-read_parts max_images texts images [] [] done l =
      rw (append-nil texts, append-nil images) refl
  AreBlocks-read_parts max_images texts images (raw ∷ raws) (piece ∷ pieces) (next {q = q} d b bs)
        l =
      let (room, l') = has_room max_images images piece pieces l in
      let rest =
        AreBlocks-read_parts max_images (add_text texts piece) (add_image images piece) raws pieces
          bs l' in
      rw
        (
          d,
          IsBlock-read_part decode max_images (length images) q piece b room,
          rest,
          add_text-texts_of texts piece pieces,
          add_image-images_of images piece pieces,
        )
        refl
  AreBlocks-read_parts max_images texts images [] (piece ∷ pieces) b l = elim b [ ]
  AreBlocks-read_parts max_images texts images (raw ∷ raws) [] b l = elim b [ ]
