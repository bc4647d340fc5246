-- ===== src/Examples/ModerationInput.antt =====
-- Two lines of text and an embedded image: internal/audit/moderation_input.go.
use deepseek_moderation_api.Prelude.{
  ℕ, ◌≡◌, ◌↔◌, refl, true, List, [], ◌∷◌, none, some, ok, err, problem, ◌==◌, if◌then◌else◌,
}
use deepseek_moderation_api.Text.{codes, join}
use deepseek_moderation_api.Keywords.{text_eq, has_prefix}
use deepseek_moderation_api.ModerationInput.{
  AuditImage, Decoders, body, cut, valid_audit_image, read_parts, finish_text, finish_input,
  validate_text, read_either, parse_moderation_input, read_moderation_request,
  image_input_cacheable, audit_input_scope,
}
use deepseek_moderation_api.ModerationInput.Accepted.{IsInput, parse_moderation_input_iff}

abbrev pub picture : AuditImage
picture = record { url = codes "data:image/png;base64,AAAA"; detail = "low" }

abbrev pub hello : List ℕ
hello = codes "hello"

-- JSON values are numbers: 0 is the array of 1, 2 and 1, of which 1 is a text and 2 an image.
abbrev pub decoders : Decoders ℕ
decoders = record {
  text = λ raw. none;
  array = λ raw. if raw == 0 then some (1 ∷ 2 ∷ 1 ∷ []) else none;
  kinds = λ raw. some ("text" ∷ "image_url" ∷ "text" ∷ []);
  part = λ raw.
      if raw == 1
      then some (record { kind = "text"; text = some hello; image_url = none })
      else some (record { kind = "image_url"; text = none; image_url = some 3 });
  image = λ raw. some picture;
  request = λ raw. some (record { model = "forum"; input = 0 });
  base64_size = λ content. some 3;
  parse_url = λ url. none;
}

parsed : parse_moderation_input decoders 1 0 ≡ ok (join 10 (hello ∷ hello ∷ []), picture ∷ [])
unfolding parse_moderation_input read_either read_parts finish_input finish_text validate_text
    valid_audit_image cut has_prefix text_eq join
parsed = refl

-- No room for the image.
crowded : parse_moderation_input decoders 0 0 ≡ err (problem 413 "too_many_images")
unfolding parse_moderation_input read_either read_parts
crowded = refl

-- A large body is read, since it shows an image.
large :
    read_moderation_request decoders (body 5 2000000)
    ≡ ok (record { model = "forum"; input = 0 }, true)
unfolding read_moderation_request
large = refl

scoped : audit_input_scope true (picture ∷ []) ≡ "text_only"
unfolding audit_input_scope
scoped = refl

embedded : image_input_cacheable (picture ∷ []) ≡ true
unfolding image_input_cacheable has_prefix
embedded = refl

parse_moderation_input_iff_example :
    (parse_moderation_input decoders 1 0 ≡ ok (join 10 (hello ∷ hello ∷ []), picture ∷ []))
    ↔ IsInput decoders 1 (1 ∷ 2 ∷ 1 ∷ []) (join 10 (hello ∷ hello ∷ [])) (picture ∷ [])
parse_moderation_input_iff_example =
    parse_moderation_input_iff decoders 1 0 (1 ∷ 2 ∷ 1 ∷ []) (join 10 (hello ∷ hello ∷ []))
      (picture ∷ []) refl refl
