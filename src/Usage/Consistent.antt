-- ===== src/Usage/Consistent.antt =====
-- A usage that counts as reported adds up, whatever integers the provider sent.
use deepseek_moderation_api.Prelude.{
  ℕ, ◌+◌, ◌-◌, ◌≤◌, ◌≡◌, refl, Bool, true, false, not, ◌||◌, Bool-cases, Option-cases, inl, inr,
  Option, none, some, arith,
}
use deepseek_moderation_api.Prelude.Int.{ℤ, pos, negsuc, is_neg, ltb_ℤ, eq_ℤ, ◌-ℤ◌, pos_part}
use deepseek_moderation_api.Pricing.{Usage}
use deepseek_moderation_api.Usage.{
  WireUsage, unmarshal_usage, read_present, read_counts, with_split, reasoning_of,
  normalize_grok_usage, with_cached, normalized_output, attempted_usage,
}

-- The split of a usage into cache hits and misses, where there is one.
abbrev SplitAdds : ℤ → Option ℤ → Option ℤ → Type 0
SplitAdds p (some hit) (some miss) =
    (is_neg hit ≡ false) × (is_neg miss ≡ false) × (pos_part hit + pos_part miss ≡ pos_part p)
SplitAdds p (some hit) none = ⊥
SplitAdds p none (some miss) = ⊥
SplitAdds p none none = Unit {0}

-- No count is negative, the parts make the total, reasoning is part of the output, and the cache
-- split, there in both halves or in none, makes the prompt.
abbrev pub IsConsistent : Usage → Type 0
IsConsistent u =
    (is_neg u.prompt_tokens ≡ false)
    × (is_neg u.completion_tokens ≡ false)
    × (is_neg u.total_tokens ≡ false)
    × (is_neg u.reasoning_tokens ≡ false)
    × (pos_part u.prompt_tokens + pos_part u.completion_tokens ≡ pos_part u.total_tokens)
    × (pos_part u.reasoning_tokens ≤ pos_part u.completion_tokens)
    × SplitAdds u.prompt_tokens u.cache_hit_tokens u.cache_miss_tokens

with_split-IsConsistent :
    (u : Usage) (p : ℤ) (hit miss : Option ℤ)
    → u.prompt_tokens ≡ p
    → u.cache_hit_tokens ≡ none
    → u.cache_miss_tokens ≡ none
    → IsConsistent u
    → IsConsistent (with_split u p hit miss)
unfolding with_split
with_split-IsConsistent u p (some hit) (some miss) e a b c = ground arith
with_split-IsConsistent u p (some hit) none e a b c = c
with_split-IsConsistent u p none miss e a b c = c

reasoning_of-le :
    (c nested flat : ℤ)
    → is_neg c ≡ false
    → (is_neg (reasoning_of c nested flat) ≡ false)
      × (pos_part (reasoning_of c nested flat) ≤ pos_part c)
unfolding reasoning_of
reasoning_of-le c nested flat h = ground arith

counts_add :
    (p c t : ℤ)
    → (is_neg p || is_neg c || is_neg t || ltb_ℤ t p || not (eq_ℤ c (t -ℤ p))) ≡ false
    → (is_neg p ≡ false)
      × (is_neg c ≡ false)
      × (is_neg t ≡ false)
      × (pos_part p + pos_part c ≡ pos_part t)
counts_add p c t h = ground arith

read_counts-IsConsistent : (w : WireUsage) (p c t : ℤ) → IsConsistent (read_counts w p c t)
unfolding read_counts
read_counts-IsConsistent w p c t =
    elim (Bool-cases (is_neg p || is_neg c || is_neg t || ltb_ℤ t p || not (eq_ℤ c (t -ℤ p)))) [
      | inl bad ↦ rw bad (refl, refl, refl, refl, omega arith, omega arith, tt)
      | inr good ↦
          let (np, nc, nt, add) = counts_add p c t good in
          let (nr, le) = reasoning_of-le c w.details_reasoning w.wire_reasoning nc in
          rw good (
            with_split-IsConsistent _ p w.wire_hit w.wire_miss refl refl refl
              (np, nc, nt, nr, add, le, tt))
    ]

read_present-IsConsistent : (w : WireUsage) (p c t : Option ℤ) → IsConsistent (read_present w p c t)
unfolding read_present
read_present-IsConsistent w (some p) (some c) (some t) = read_counts-IsConsistent w p c t
read_present-IsConsistent w (some p) (some c) none =
    (refl, refl, refl, refl, omega arith, omega arith, tt)
read_present-IsConsistent w (some p) none t = (refl, refl, refl, refl, omega arith, omega arith, tt)
read_present-IsConsistent w none c t = (refl, refl, refl, refl, omega arith, omega arith, tt)

-- Whatever integers the JSON holds, or if it does not decode, the usage that `UnmarshalJSON` leaves
-- is consistent: no count is negative, prompt and completion make the total, reasoning is at most
-- the completion, and the cache split is whole and makes the prompt, or is absent.
pub unmarshal_usage-IsConsistent : (w : Option WireUsage) → IsConsistent (unmarshal_usage w)
unfolding unmarshal_usage
unmarshal_usage-IsConsistent none = (refl, refl, refl, refl, omega arith, omega arith, tt)
unmarshal_usage-IsConsistent (some w) =
    read_present-IsConsistent w w.wire_prompt w.wire_completion w.wire_total

with_cached-IsConsistent :
    (u : Usage) (p : ℤ) (cached : Option ℤ)
    → u.prompt_tokens ≡ p
    → IsConsistent u
    → IsConsistent (with_cached u p cached)
unfolding with_cached
with_cached-IsConsistent u p none e c = c
with_cached-IsConsistent u p (some n) e c = ground arith

with_cached-total :
    (u : Usage) (p : ℤ) (cached : Option ℤ) → (with_cached u p cached).total_tokens ≡ u.total_tokens
unfolding with_cached
with_cached-total u p cached = ground arith

sub_pos : (a b : ℕ) → b ≤ a → pos a -ℤ pos b ≡ pos (a - b)
sub_pos a b h = ground arith

normalized_output-pos :
    (g o r : ℕ) (out : ℤ)
    → normalized_output (pos g) (pos o) (pos r) ≡ some out
    → (out ≡ pos (o + g)) × (r ≤ o + g)
unfolding normalized_output
normalized_output-pos g o r out e = ground arith

fits_total : (p total : ℕ) (rest : Bool) → (ltb_ℤ (pos total) (pos p) || rest) ≡ false → p ≤ total
fits_total p total rest h = ground arith

fits_rest : (p o total : ℕ) → p ≤ total → ltb_ℤ (pos total -ℤ pos p) (pos o) ≡ false → o ≤ total - p
fits_rest p o total h k = ground (arith, sub_pos total p)

or-right : (a b : Bool) → (a || b) ≡ false → b ≡ false
or-right true b h = cc
or-right false b h = h

grok_counts_add :
    (p o total r out : ℤ)
    → (is_neg p || is_neg o || is_neg r || ltb_ℤ total p || ltb_ℤ (total -ℤ p) o) ≡ false
    → normalized_output (total -ℤ p -ℤ o) o r ≡ some out
    → (is_neg p ≡ false)
      × (is_neg out ≡ false)
      × (is_neg total ≡ false)
      × (is_neg r ≡ false)
      × (pos_part p + pos_part out ≡ pos_part total)
      × (pos_part r ≤ pos_part out)
grok_counts_add (pos p) (pos o) (pos total) (pos r) out good e =
    let a = fits_total p total _ good in
    let b = fits_rest p o total a (or-right (ltb_ℤ (pos total) (pos p)) _ good) in
    let (eq, le) =
      normalized_output-pos (total - p - o) o r out
        (rw (sub_pos total p a, sub_pos (total - p) o b) at e) in
    rw eq (refl, refl, refl, refl, omega arith, omega arith)
grok_counts_add (pos p) (pos o) (negsuc total) (pos r) out good e = absurd (ground arith)
grok_counts_add (pos p) (pos o) total (negsuc r) out good e = cc
grok_counts_add (pos p) (negsuc o) total r out good e = cc
grok_counts_add (negsuc p) o total r out good e = cc

-- The same holds of the counts of a Responses gateway, where the output may leave the reasoning
-- out: what `normalize_grok_usage` reports is consistent, and its total is the reported total.
pub normalize_grok_usage-IsConsistent :
    (p o total r : ℤ) (cached : Option ℤ)
    → let u = normalize_grok_usage p o total r cached in
      IsConsistent u × (u.reported ≡ true → u.total_tokens ≡ total)
unfolding normalize_grok_usage
normalize_grok_usage-IsConsistent p o total r cached =
    elim (Bool-cases (is_neg p || is_neg o || is_neg r || ltb_ℤ total p || ltb_ℤ (total -ℤ p) o)) [
      | inl bad ↦ rw bad (refused, λ h. cc)
      | inr good ↦ elim (Option-cases (normalized_output (total -ℤ p -ℤ o) o r)) [
        | inl none_left ↦ rw (good, none_left) (refused, λ h. cc)
        | inr (out, e) ↦
            let (np, no', nt, nr, add, le) = grok_counts_add p o total r out good e in
            rw (good, e)
              (
                with_cached-IsConsistent _ p cached refl (np, no', nt, nr, add, le, tt),
                λ h. with_cached-total _ p cached,
              )
      ]
    ]
  where
    refused : IsConsistent attempted_usage
    refused = (refl, refl, refl, refl, omega arith, omega arith, tt)
