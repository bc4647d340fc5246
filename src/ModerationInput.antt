-- ===== src/ModerationInput.antt =====
-- The body of a moderation request and its input: internal/audit/moderation_input.go and
-- `validateText` of model.go. What encoding/json, encoding/base64 and net/url read is given by
-- `Decoders`; a text that JSON holds is valid UTF-8.
pub mod Parts
pub mod Blocks
pub mod Accepted
use deepseek_moderation_api.Prelude.{
  ℕ, ◌+◌, Bool, true, false, not, ◌&&◌, ◌||◌, List, [], ◌∷◌, ◌++◌, Option, none, some, String,
  str_eq, ltb, leb, ◌==◌, if◌then◌else◌, all, any, length, Failure, Result, ok, err, problem, ◌>>=◌,
  ◌>>◌, refuse_if,
}
use deepseek_moderation_api.Text.{codes, utf8_length, join}
use deepseek_moderation_api.Keywords.{text_eq, has_prefix, is_blank}
use deepseek_moderation_api.Policy.Provider.{Url, is_empty}

pub record AuditImage : Type 0 where
  pub url : List ℕ
  pub detail : String

-- A block, with the JSON of its image.
pub record Part (Raw : Type 0) : Type 0 where
  pub kind : String
  pub text : Option (List ℕ)
  pub image_url : Option Raw

pub record ModerationRequest (Raw : Type 0) : Type 0 where
  pub model : String
  pub input : Raw

pub record Decoders (Raw : Type 0) : Type 0 where
  pub text : Raw → Option (List ℕ)
  pub array : Raw → Option (List Raw)
  pub kinds : Raw → Option (List String)
  pub part : Raw → Option (Part Raw)
  pub image : Raw → Option AuditImage
  pub request : Raw → Option (ModerationRequest Raw)
  pub base64_size : List ℕ → Option ℕ
  pub parse_url : List ℕ → Option Url

-- The body, as far as it can be read.
pub data Body (Raw : Type 0) : Type 0 where
  unreadable : Body Raw
  body : (raw : Raw) (bytes : ℕ) → Body Raw

abbrev pub text_body_limit : ℕ
text_body_limit = 1048576

abbrev pub image_body_limit : ℕ
image_body_limit = 33554432

unfoldable pub validate_text : List ℕ → Result (List ℕ)
validate_text text = do
  refuse_if (is_blank text) (problem 400 "empty_input")
  refuse_if (ltb 64000 (length text)) (problem 413 "input_too_large")
  ok text

abbrev pub prepend : ℕ → Option (List ℕ × List ℕ) → Option (List ℕ × List ℕ)
prepend c none = none
prepend c (some (header, content)) = some (c ∷ header, content)

-- strings.Cut at a comma, where there is one.
unfoldable pub cut : List ℕ → Option (List ℕ × List ℕ)
cut [] = none
cut (c ∷ cs) = let rest = cut cs in if c == b',' then some ([], cs) else prepend c rest

abbrev pub embedded_prefix : List ℕ
embedded_prefix = codes "data:image/"

abbrev pub is_image_type : List ℕ → Bool
is_image_type header =
    text_eq header (codes "data:image/png;base64")
    || text_eq header (codes "data:image/jpeg;base64")
    || text_eq header (codes "data:image/webp;base64")
    || text_eq header (codes "data:image/gif;base64")

abbrev pub has_content : Option ℕ → Bool
has_content none = false
has_content (some n) = ltb 0 n

abbrev pub is_web : Option Url → Bool
is_web none = false
is_web (some u) =
    (text_eq u.scheme (codes "https") || text_eq u.scheme (codes "http"))
    && not (is_empty u.hostname)
    && not u.has_user

unfoldable pub audit_input_scope : (text_only : Bool) → List AuditImage → String
audit_input_scope text_only [] = "text"
audit_input_scope text_only (image ∷ images) = if text_only then "text_only" else "text_and_images"

-- Only embedded images have their bytes in the identity of the input.
unfoldable pub image_input_cacheable : List AuditImage → Bool
image_input_cacheable images = all (λ i. has_prefix i.url embedded_prefix) images

abbrev pub is_absent : {A : Type 0} → Option A → Bool
is_absent none = true
is_absent (some a) = false

-- What one block adds: a text, or an image.
pub data Piece : Type 0 where
  text_piece : List ℕ → Piece
  image_piece : AuditImage → Piece

abbrev pub add_text : List (List ℕ) → Piece → List (List ℕ)
add_text texts (text_piece text) = texts ++ text ∷ []
add_text texts (image_piece image) = texts

abbrev pub add_image : List AuditImage → Piece → List AuditImage
add_image images (text_piece text) = images
add_image images (image_piece image) = images ++ image ∷ []

abbrev pub read_text : {Raw : Type 0} → Part Raw → Result Piece
read_text p = elim p.text [
  | none ↦ err (problem 400 "invalid_input")
  | some text ↦
      if is_absent p.image_url then ok (text_piece text) else err (problem 400 "invalid_input")
]

unfoldable pub finish_text : List ℕ → Result (List ℕ × List AuditImage)
unfolding validate_text
finish_text text = do valid ← validate_text text; ok (valid, [])

unfoldable pub finish_input : List (List ℕ) × List AuditImage → Result (List ℕ × List AuditImage)
unfolding finish_text
finish_input (texts, []) = finish_text (join 10 texts)
finish_input (texts, image ∷ images) = do
  refuse_if (ltb 64000 (length (join 10 texts))) (problem 413 "input_too_large")
  ok (join 10 texts, image ∷ images)

abbrev pub shows_image : Option (List String) → Bool
shows_image none = false
shows_image (some kinds) = any (λ k. str_eq k "image_url") kinds

module _ {Raw : Type 0} (decode : Decoders Raw) where
  abbrev pub is_embedded : Option (List ℕ × List ℕ) → Bool
  is_embedded none = false
  is_embedded (some (header, content)) =
      not (is_empty content) && is_image_type header && has_content (decode.base64_size content)

  unfoldable pub valid_audit_image : AuditImage → Bool
  unfolding cut
  valid_audit_image image =
      (str_eq image.detail ""
        || str_eq image.detail "auto"
        || str_eq image.detail "low"
        || str_eq image.detail "high")
      && (if has_prefix image.url embedded_prefix
          then is_embedded (cut image.url)
          else leb (utf8_length image.url) 8192 && is_web (decode.parse_url image.url))

  abbrev pub decode_image : Option Raw → Option AuditImage
  decode_image none = none
  decode_image (some raw) = decode.image raw

  abbrev pub keep_image : (text : Option (List ℕ)) → Option AuditImage → Result Piece
  keep_image text none = err (problem 400 "invalid_input")
  keep_image text (some image) =
      if is_absent text && valid_audit_image image
      then ok (image_piece image)
      else err (problem 400 "invalid_input")

  abbrev pub read_image : Part Raw → Result Piece
  read_image p = keep_image p.text (decode_image p.image_url)

  abbrev pub read_kind : (max_images images : ℕ) → Part Raw → Result Piece
  read_kind max_images images p =
      if str_eq p.kind "text"
      then read_text p
      else if str_eq p.kind "image_url"
      then if leb max_images images then err (problem 413 "too_many_images") else read_image p
      else err (problem 400 "unsupported_input")

  -- A block, after `images` images.
  abbrev pub read_part : (max_images images : ℕ) → Option (Part Raw) → Result Piece
  read_part max_images images none = err (problem 400 "invalid_input")
  read_part max_images images (some p) = read_kind max_images images p

  -- The loop, with the texts and the images that it has.
  unfoldable pub read_parts :
      (max_images : ℕ)
      → (texts : List (List ℕ)) → (images : List AuditImage) → List Raw
      → Result (List (List ℕ) × List AuditImage)
  read_parts max_images texts images [] = ok (texts, images)
  read_parts max_images texts images (raw ∷ raws) = do
    piece ← read_part max_images (length images) (decode.part raw)
    read_parts max_images (add_text texts piece) (add_image images piece) raws

  abbrev pub read_array : (max_images : ℕ) → Option (List Raw) → Result (List ℕ × List AuditImage)
  read_array max_images none = err (problem 400 "invalid_input")
  read_array max_images (some raws) = do
    refuse_if (length raws == 0) (problem 400 "invalid_input")
    refuse_if (ltb 1024 (length raws)) (problem 413 "input_too_large")
    pieces ← read_parts max_images [] [] raws
    finish_input pieces

  -- A text, or else an array of blocks.
  unfoldable pub read_either :
      (max_images : ℕ) → Option (List ℕ) → Option (List Raw) → Result (List ℕ × List AuditImage)
  unfolding finish_text read_parts finish_input
  read_either max_images (some text) array = finish_text text
  read_either max_images none array = read_array max_images array

  unfoldable pub parse_moderation_input : (max_images : ℕ) → Raw → Result (List ℕ × List AuditImage)
  unfolding read_either
  parse_moderation_input max_images raw =
      read_either max_images (decode.text raw) (decode.array raw)

  abbrev pub check_size :
      (bytes : ℕ) → Option (ModerationRequest Raw) → Result (ModerationRequest Raw × Bool)
  check_size bytes none = err (problem 400 "invalid_json")
  check_size bytes (some r) = do
    refuse_if (ltb text_body_limit bytes && not (shows_image (decode.kinds r.input)))
        (problem 413 "body_too_large")
    ok (r, shows_image (decode.kinds r.input))

  unfoldable pub read_moderation_request : Body Raw → Result (ModerationRequest Raw × Bool)
  read_moderation_request unreadable = err (problem 400 "invalid_input")
  read_moderation_request (body raw bytes) = do
    refuse_if (ltb image_body_limit bytes) (problem 413 "body_too_large")
    check_size bytes (decode.request raw)
