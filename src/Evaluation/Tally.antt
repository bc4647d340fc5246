-- ===== src/Evaluation/Tally.antt =====
-- The scores count the results (internal/audit/evaluation_report.go).
use deepseek_moderation_api.Prelude.{
  ℕ, ◌+◌, ◌≡◌, refl, ap, Bool, true, false, not, ◌&&◌, ◌||◌, List, [], ◌∷◌, Option, none, some,
  arith, if◌then◌else◌, String, str_eq, Bool-cases, Option-cases, inl, inr, any, eq_iff,
}
use mathlib.Core.Path.{subst}
use deepseek_moderation_api.Evaluation.Scores.{
  EvaluationResult, Accumulator, TargetScore, is_waiting, is_failed, pending_of, charge_of, one_if,
  count_cost, note_verdict, label, count_processed, add_result, Groups, group_or, add_to_groups,
  group_results, fresh_group, no_groups, finish, evaluation_score,
}

-- How many results have the property, and the sum of a number over those that have it.
abbrev pub count : (EvaluationResult → Bool) → List EvaluationResult → ℕ
count p [] = 0
count p (r ∷ rs) = one_if (p r) + count p rs

abbrev pub total_of : (EvaluationResult → Bool) → (EvaluationResult → ℕ) → List EvaluationResult → ℕ
total_of p f [] = 0
total_of p f (r ∷ rs) = (if p r then f r else 0) + total_of p f rs

abbrev pub is_done : EvaluationResult → Bool
is_done r = not (is_waiting r)

abbrev pub is_judged : EvaluationResult → Bool
is_judged r = is_done r && not (is_failed r)

abbrev pub expects : String → EvaluationResult → Bool
expects verdict r = is_judged r && str_eq r.expected verdict

abbrev pub is_labelled : EvaluationResult → Bool
is_labelled r = expects "allow" r || expects "flagged" r

abbrev pub is_correct : EvaluationResult → Bool
is_correct r = expects "allow" r && not r.flagged || expects "flagged" r && r.flagged

-- What results add to a group: `p` says which of them are the group's.
record Adds (p : EvaluationResult → Bool) (rs : List EvaluationResult) (a b : Accumulator)
    : Type 0 where
  total : b.score.total ≡ a.score.total + count p rs
  processed : b.score.processed ≡ a.score.processed + count (λ r. p r && is_done r) rs
  valid : b.score.valid ≡ a.score.valid + count (λ r. p r && is_judged r) rs
  errors : b.score.errors ≡ a.score.errors + count (λ r. p r && is_done r && is_failed r) rs
  labelled : b.score.labelled ≡ a.score.labelled + count (λ r. p r && is_labelled r) rs
  correct : b.score.correct ≡ a.score.correct + count (λ r. p r && is_correct r) rs
  allow_samples :
      b.score.allow_samples ≡ a.score.allow_samples + count (λ r. p r && expects "allow" r) rs
  flagged_samples :
      b.score.flagged_samples ≡ a.score.flagged_samples + count (λ r. p r && expects "flagged" r) rs
  false_positives :
      b.score.false_positives
      ≡ a.score.false_positives + count (λ r. p r && expects "allow" r && r.flagged) rs
  false_negatives :
      b.score.false_negatives
      ≡ a.score.false_negatives + count (λ r. p r && expects "flagged" r && not r.flagged) rs
  pending : b.score.pending_costs ≡ a.score.pending_costs + count (λ r. p r && pending_of r.cost) rs
  cost : b.cost ≡ a.cost + total_of p (λ r. charge_of r.known_cost r.cost) rs
  latency : b.latency ≡ a.latency + total_of (λ r. p r && is_done r) (λ r. r.latency_ms) rs

different_verdicts : (s : String) → str_eq s "allow" ≡ true → str_eq s "flagged" ≡ false
different_verdicts s h = rw ((eq_iff s "allow").0 h) refl

add_result-Adds :
    (r : EvaluationResult) (a : Accumulator) → Adds (λ x. true) (r ∷ []) a (add_result r a)
unfolding add_result count_cost count_processed note_verdict label
add_result-Adds r a = elim (Bool-cases (is_waiting r)) [
  | inl waiting ↦ rw waiting (ground arith)
  | inr done ↦ elim (Bool-cases (is_failed r)) [
    | inl failed ↦ rw (done, failed) (ground arith)
    | inr judged ↦ elim (Bool-cases (str_eq r.expected "allow")) [
      | inl allow ↦
          let other = different_verdicts r.expected allow in rw (done, judged, allow) (ground arith)
      | inr other ↦ elim (Bool-cases (str_eq r.expected "flagged")) [
        | inl flagged ↦ rw (done, judged, other, flagged) (ground arith)
        | inr neither ↦ rw (done, judged, other, neither) (ground arith)
      ]
    ]
  ]
]

-- A result of another group adds nothing.
Adds-skip :
    (p : EvaluationResult → Bool) (r : EvaluationResult) (rs : List EvaluationResult)
    (a b : Accumulator)
    → p r ≡ false
    → Adds p rs a b
    → Adds p (r ∷ rs) a b
Adds-skip p r rs a b h k = ground arith

Adds-cons :
    (p : EvaluationResult → Bool) (r : EvaluationResult) (rs : List EvaluationResult)
    (a b c : Accumulator)
    → p r ≡ true
    → Adds (λ x. true) (r ∷ []) a b
    → Adds p rs b c
    → Adds p (r ∷ rs) a c
Adds-cons p r rs a b c h one rest = ground arith

-- The group of a target, a fresh one if there is none yet.
abbrev group_at : Groups → String → Accumulator
group_at g t = group_or t (g.group t)

abbrev pub is_of : String → EvaluationResult → Bool
is_of t r = str_eq r.target t

group_at-mine :
    (g : Groups) (r : EvaluationResult) (t : String)
    → str_eq r.target t ≡ true
    → group_at (add_to_groups r g) t ≡ add_result r (group_at g t)
unfolding add_to_groups
group_at-mine g r t h =
    let same = ap (λ x. add_result r (group_at g x)) ((eq_iff r.target t).0 h) in rw h same

group_at-other :
    (g : Groups) (r : EvaluationResult) (t : String)
    → str_eq r.target t ≡ false
    → group_at (add_to_groups r g) t ≡ group_at g t
unfolding add_to_groups
group_at-other g r t h = rw h refl

group_results-Adds :
    (g : Groups) (rs : List EvaluationResult) (t : String)
    → Adds (is_of t) rs (group_at g t) (group_at (group_results g rs) t)
unfolding group_results
group_results-Adds g [] t = ground arith
group_results-Adds g (r ∷ rs) t =
    let after = group_at (group_results (add_to_groups r g) rs) t in
    let later = group_results-Adds (add_to_groups r g) rs t in
    elim (Bool-cases (str_eq r.target t)) [
      | inl mine ↦
          Adds-cons (is_of t) r rs (group_at g t) (add_result r (group_at g t)) after mine
            (add_result-Adds r (group_at g t))
            (subst (λ a. Adds (is_of t) rs a after) (group_at-mine g r t mine) later)
      | inr other ↦
          Adds-skip (is_of t) r rs (group_at g t) after other
            (subst (λ a. Adds (is_of t) rs a after) (group_at-other g r t other) later)
    ]

-- What a target's score says, in terms of the results alone.
pub record IsTally (t : String) (rs : List EvaluationResult) (s : TargetScore) : Type 0 where
  pub total : s.score.total ≡ count (is_of t) rs
  pub processed : s.score.processed ≡ count (λ r. is_of t r && is_done r) rs
  pub valid : s.score.valid ≡ count (λ r. is_of t r && is_judged r) rs
  pub errors : s.score.errors ≡ count (λ r. is_of t r && is_done r && is_failed r) rs
  pub labelled : s.score.labelled ≡ count (λ r. is_of t r && is_labelled r) rs
  pub correct : s.score.correct ≡ count (λ r. is_of t r && is_correct r) rs
  pub allow_samples : s.score.allow_samples ≡ count (λ r. is_of t r && expects "allow" r) rs
  pub flagged_samples : s.score.flagged_samples ≡ count (λ r. is_of t r && expects "flagged" r) rs
  pub false_positives :
      s.score.false_positives ≡ count (λ r. is_of t r && expects "allow" r && r.flagged) rs
  pub false_negatives :
      s.score.false_negatives ≡ count (λ r. is_of t r && expects "flagged" r && not r.flagged) rs
  pub pending : s.score.pending_costs ≡ count (λ r. is_of t r && pending_of r.cost) rs
  pub cost : s.known_cost ≡ total_of (is_of t) (λ r. charge_of r.known_cost r.cost) rs
  pub latency : s.latency ≡ total_of (λ r. is_of t r && is_done r) (λ r. r.latency_ms) rs

finish-IsTally :
    (t : String) (rs : List EvaluationResult) (a : Accumulator)
    → Adds (is_of t) rs (fresh_group t) a
    → IsTally t rs (finish a)
unfolding finish
finish-IsTally t rs a h = ground arith

abbrev is_some : Option Accumulator → Bool
is_some none = false
is_some (some a) = true

-- A target has a group as soon as a result has it.
group_results-is_some :
    (g : Groups) (rs : List EvaluationResult) (t : String)
    → is_some ((group_results g rs).group t) ≡ (is_some (g.group t) || any (is_of t) rs)
unfolding group_results add_to_groups
group_results-is_some g [] t = ground arith
group_results-is_some g (r ∷ rs) t = ground (arith, group_results-is_some (add_to_groups r g) rs t)

-- For a target that has a result: it has a score. Whatever the order of the results, the score counts,
-- of the results of this target, all, those that are done, that are valid, that failed, that have a
-- label, that meet it, those with each label, and those that miss it in each direction; its pending
-- costs, known cost and latency are the number and the sums over the same results.
pub evaluation_score-IsTally :
    (rs : List EvaluationResult) (t : String)
    → any (is_of t) rs ≡ true
    → (s : TargetScore) × (evaluation_score rs t ≡ some s) × IsTally t rs s
unfolding evaluation_score
evaluation_score-IsTally rs t has = elim (Option-cases ((group_results no_groups rs).group t)) [
  | inl nothing ↦
      let no : false ≡ any (is_of t) rs = rw nothing at (group_results-is_some no_groups rs t) in cc
  | inr (a, found) ↦
      let adds : Adds (is_of t) rs (fresh_group t) a =
        rw found at (group_results-Adds no_groups rs t) in
      (finish a, rw (found, evaluation_score) refl, finish-IsTally t rs a adds)
]
