-- ===== src/Examples/Keywords.antt =====
-- A blocked and an ignored keyword: internal/audit/keyword_block.go and keyword_ignore.go.
use deepseek_moderation_api.Prelude.{
  ℕ, ◌≡◌, refl, true, false, not, ◌&&◌, ◌||◌, List, [], ◌∷◌, ◌++◌, leb, if◌then◌else◌,
}
use deepseek_moderation_api.Money.{trim_space, trim_left_space, trim_right_space}
use deepseek_moderation_api.Keywords.{
  contains, exact, KeywordRule, applies, matches, is_blank, validate_keyword_list, decide,
  run_verdict, text_eq,
}
use deepseek_moderation_api.Keywords.Found.{matches-contains, applies-listed}
use deepseek_moderation_api.Keywords.Flag.{run_verdict-decide}

abbrev bad : List ℕ
bad = b'b' ∷ b'a' ∷ b'd' ∷ []

abbrev text : List ℕ
text = b'a' ∷ b' ' ∷ bad ++ b'!' ∷ []

abbrev block : KeywordRule
block = record { enabled = true; mode = contains; keywords = bad ∷ [] }

abbrev ignore : KeywordRule
ignore = record { enabled = true; mode = exact; keywords = text ∷ [] }

bad-valid : validate_keyword_list (bad ∷ []) ≡ true
unfolding validate_keyword_list is_blank trim_space trim_left_space trim_right_space
bad-valid = refl

bad-blank : is_blank bad ≡ false
unfolding is_blank trim_space trim_left_space trim_right_space
bad-blank = refl

ignored_too : applies ignore text ≡ true
unfolding applies matches text_eq is_blank trim_space trim_left_space trim_right_space
ignored_too = refl

matches-contains_example :
    ((before rest : List ℕ) → text ≡ before ++ bad ++ rest → matches contains text bad ≡ true)
    × (matches contains text bad ≡ true
        → (before : List ℕ) × (rest : List ℕ) × (text ≡ before ++ bad ++ rest))
matches-contains_example = matches-contains text bad bad-blank

applies-listed_example :
    applies
      (record { enabled = true; mode = contains; keywords = [] ++ bad ∷ [] })
      ((b'a' ∷ b' ' ∷ []) ++ bad ++ b'!' ∷ [])
    ≡ true
applies-listed_example = applies-listed [] bad [] (b'a' ∷ b' ' ∷ []) (b'!' ∷ []) bad-valid

run_verdict-decide_example :
    ((run_verdict 80 (decide block ignore 100 text (record { confidence = 3 }))).flagged
      ≡ (applies block text || not (applies ignore text) && leb 80 3))
    × ((run_verdict 80 (decide block ignore 100 text (record { confidence = 3 }))).illicit
        ≡ (applies block text || not (applies ignore text) && leb 80 3))
    × ((run_verdict 80 (decide block ignore 100 text (record { confidence = 3 }))).score
        ≡ (if applies block text || not (applies ignore text) && leb 80 3 then 1 else 0))
run_verdict-decide_example = run_verdict-decide block ignore 100 80 text (record { confidence = 3 })
