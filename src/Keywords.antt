-- ===== src/Keywords.antt =====
-- Keyword rules, which decide without a model, and the result that a client gets:
-- internal/audit/keyword_block.go, keyword_ignore.go, moderation.go and, of router.go, the start of
-- executeRoute and the end of runAudit. A text is the list of its code points. Confidence and threshold
-- are counted in a unit of which both are multiples; only their order matters.
pub mod Found
pub mod Flag
use deepseek_moderation_api.Prelude.{
  ℕ, ◌+◌, Bool, true, false, not, ◌&&◌, ◌||◌, List, [], ◌∷◌, Option, none, some, ltb, leb, ◌==◌,
  if◌then◌else◌, length, all, any, sum, map,
}
use deepseek_moderation_api.Money.{trim_space}

-- Any mode but "exact" looks for the keyword inside the text.
pub data MatchMode : Type 0 where
  contains exact : MatchMode

pub record KeywordRule : Type 0 where
  pub enabled : Bool
  pub mode : MatchMode
  pub keywords : List (List ℕ)

unfoldable pub text_eq : List ℕ → List ℕ → Bool
text_eq [] [] = true
text_eq [] (y ∷ ys) = false
text_eq (x ∷ xs) [] = false
text_eq (x ∷ xs) (y ∷ ys) = x == y && text_eq xs ys

unfoldable pub has_prefix : List ℕ → List ℕ → Bool
has_prefix text [] = true
has_prefix [] (k ∷ ks) = false
has_prefix (c ∷ cs) (k ∷ ks) = c == k && has_prefix cs ks

-- strings.Contains.
unfoldable pub has_part : List ℕ → List ℕ → Bool
has_part [] keyword = has_prefix [] keyword
has_part (c ∷ cs) keyword = has_prefix (c ∷ cs) keyword || has_part cs keyword

unfoldable pub is_blank : List ℕ → Bool
is_blank keyword = length (trim_space keyword) == 0

unfoldable pub matches : MatchMode → List ℕ → List ℕ → Bool
matches exact input keyword = not (is_blank keyword) && text_eq input keyword
matches contains input keyword = not (is_blank keyword) && has_part input keyword

-- `blocksKeywords` and `ignoresKeywords`, each on its own settings.
unfoldable pub applies : KeywordRule → List ℕ → Bool
applies rule input = rule.enabled && any (matches rule.mode input) rule.keywords

-- `validateKeywordList`; true where it returns nil.
unfoldable pub validate_keyword_list : List (List ℕ) → Bool
validate_keyword_list keywords =
    leb (length keywords) 100
    && all (λ k. not (is_blank k) && leb (length k) 1000) keywords
    && leb (sum (map length keywords)) 16000

pub record Assessment : Type 0 where
  pub confidence : ℕ

-- What `executeRoute` notes in the log with its answer.
pub record Decision : Type 0 where
  pub assessment : Assessment
  pub keyword_blocked : Bool
  pub keyword_ignored : Bool

-- The start of `executeRoute`, before any channel is looked at; `one` is the confidence 1.
unfoldable pub decide : (block ignore : KeywordRule) → (one : ℕ) → List ℕ → Assessment → Decision
decide block ignore one input answer =
    if applies block input
    then record {
      assessment = record { confidence = one };
      keyword_blocked = true;
      keyword_ignored = false;
    }
    else if applies ignore input
    then record {
      assessment = record { confidence = 0 };
      keyword_blocked = false;
      keyword_ignored = true;
    }
    else record { assessment = answer; keyword_blocked = false; keyword_ignored = false }

-- The category `illicit` and its score.
pub record ModerationResult : Type 0 where
  pub flagged : Bool
  pub illicit : Bool
  pub score : ℕ
  pub confidence : ℕ

unfoldable pub moderation_result : (threshold : ℕ) → Assessment → ModerationResult
moderation_result threshold a =
    let flagged = leb threshold a.confidence in
    record {
      flagged = flagged;
      illicit = flagged;
      score = if flagged then 1 else 0;
      confidence = a.confidence;
    }

-- The end of `runAudit`: an ignored text is allowed whatever the threshold, a blocked one flagged.
unfoldable pub run_verdict : (threshold : ℕ) → Decision → ModerationResult
unfolding moderation_result
run_verdict threshold d =
    let v = moderation_result threshold d.assessment in
    let allowed =
      if d.keyword_ignored then record v { flagged = false; illicit = false; score = 0 } else v in
    if d.keyword_blocked
    then record allowed { flagged = true; illicit = true; score = 1 }
    else allowed
