-- ===== src/Keywords/Flag.antt =====
-- What decides whether a text is flagged (internal/audit/router.go and moderation.go).
use deepseek_moderation_api.Prelude.{
  ℕ, ◌≡◌, refl, not, ◌&&◌, ◌||◌, List, leb, if◌then◌else◌, inl, inr, Bool-cases,
}
use deepseek_moderation_api.Keywords.{KeywordRule, applies, Assessment, decide, run_verdict}

-- A text is flagged exactly if a blocking keyword applies, or no ignoring keyword does and the model's
-- confidence reaches the threshold; the category and its score say the same. Blocking wins over
-- ignoring, and an ignored text is allowed even under the threshold 0.
pub run_verdict-decide :
    (block ignore : KeywordRule) (one threshold : ℕ) (input : List ℕ) (answer : Assessment)
    → let v = run_verdict threshold (decide block ignore one input answer) in
      let flag =
        applies block input || not (applies ignore input) && leb threshold answer.confidence in
      (v.flagged ≡ flag) × (v.illicit ≡ flag) × (v.score ≡ (if flag then 1 else 0))
unfolding run_verdict decide
run_verdict-decide block ignore one threshold input answer =
    elim (Bool-cases (applies block input)) [
      | inl blocked ↦ rw blocked (refl, refl, refl)
      | inr open_ ↦ elim (Bool-cases (applies ignore input)) [
        | inl ignored ↦ rw (open_, ignored) (refl, refl, refl)
        | inr judged ↦ rw (open_, judged) (refl, refl, refl)
      ]
    ]
