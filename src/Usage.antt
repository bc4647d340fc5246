-- ===== src/Usage.antt =====
-- Token counts that a provider reports: `Usage.UnmarshalJSON` of internal/audit/pricing.go and
-- `normalizeGrokUsage` of internal/audit/provider.go, after the JSON has been read into integers.
-- The request id and the model name of a usage are left out.
pub mod Consistent
use deepseek_moderation_api.Prelude.{
  ℕ, ◌+◌, ◌-◌, Bool, true, false, ◌&&◌, ◌||◌, not, Option, none, some, ltb, leb, ◌==◌,
  if◌then◌else◌,
}
use deepseek_moderation_api.Prelude.Int.{ℤ, pos, negsuc, is_neg, ltb_ℤ, ◌+ℤ◌, ◌-ℤ◌, eq_ℤ}
use deepseek_moderation_api.Pricing.{Usage}

-- What UnmarshalJSON reads; `none` is an absent field.
pub record WireUsage : Type 0 where
  pub wire_prompt : Option ℤ
  pub wire_completion : Option ℤ
  pub wire_total : Option ℤ
  pub wire_hit : Option ℤ
  pub wire_miss : Option ℤ
  pub wire_reported : Option Bool
  pub wire_reasoning : ℤ
  pub details_reasoning : ℤ

abbrev pub no_usage : Usage
no_usage = record {
  prompt_tokens = pos 0;
  completion_tokens = pos 0;
  total_tokens = pos 0;
  cache_hit_tokens = none;
  cache_miss_tokens = none;
  reasoning_tokens = pos 0;
  reported = false;
  attempted = false;
}

abbrev pub leb_ℤ : ℤ → ℤ → Bool
leb_ℤ a b = not (ltb_ℤ b a)

-- The cache split is kept only if both parts are there and add up to the prompt.
with_split : Usage → ℤ → Option ℤ → Option ℤ → Usage
with_split u p (some hit) (some miss) =
    if not (is_neg hit) && not (is_neg miss) && leb_ℤ hit p && eq_ℤ miss (p -ℤ hit)
    then record u { cache_hit_tokens = some hit; cache_miss_tokens = some miss }
    else u
with_split u p (some hit) none = u
with_split u p none miss = u

-- The nested count, or the flat one where the nested one is 0; neither may exceed the output.
reasoning_of : ℤ → ℤ → ℤ → ℤ
reasoning_of c nested flat =
    if not (is_neg nested) && leb_ℤ nested c
    then if eq_ℤ nested (pos 0) && not (is_neg flat) && leb_ℤ flat c then flat else nested
    else pos 0

read_counts : WireUsage → ℤ → ℤ → ℤ → Usage
unfolding with_split reasoning_of
read_counts w p c t =
    if is_neg p || is_neg c || is_neg t || ltb_ℤ t p || not (eq_ℤ c (t -ℤ p))
    then no_usage
    else with_split
        (record no_usage {
          prompt_tokens = p;
          completion_tokens = c;
          total_tokens = t;
          reasoning_tokens = reasoning_of c w.details_reasoning w.wire_reasoning;
          reported = elim w.wire_reported [ none ↦ true | some b ↦ b ];
        })
        p w.wire_hit w.wire_miss

read_present : WireUsage → Option ℤ → Option ℤ → Option ℤ → Usage
unfolding read_counts
read_present w (some p) (some c) (some t) = read_counts w p c t
read_present w (some p) (some c) none = no_usage
read_present w (some p) none t = no_usage
read_present w none c t = no_usage

-- `none` is JSON that does not decode.
unfoldable pub unmarshal_usage : Option WireUsage → Usage
unfolding read_present
unmarshal_usage none = no_usage
unmarshal_usage (some w) = read_present w w.wire_prompt w.wire_completion w.wire_total

abbrev pub attempted_usage : Usage
attempted_usage = record no_usage { attempted = true }

with_cached : Usage → ℤ → Option ℤ → Usage
with_cached u p none = u
with_cached u p (some cached) =
    if not (is_neg cached) && leb_ℤ cached p
    then record u { cache_hit_tokens = some cached; cache_miss_tokens = some (p -ℤ cached) }
    else u

-- The output once the gap between the total and its parts is counted in; `none` where the counts
-- are refused.
normalized_output : (gap o r : ℤ) → Option ℤ
normalized_output gap o r =
    if not (eq_ℤ gap (pos 0)) && not (eq_ℤ gap r)
    then none
    else if ltb_ℤ (o +ℤ gap) r
    then none
    else some (o +ℤ gap)

unfoldable pub normalize_grok_usage : (p o total r : ℤ) → Option ℤ → Usage
unfolding with_cached normalized_output
normalize_grok_usage p o total r cached =
    if is_neg p || is_neg o || is_neg r || ltb_ℤ total p || ltb_ℤ (total -ℤ p) o
    then attempted_usage
    else elim (normalized_output (total -ℤ p -ℤ o) o r) [
      | none ↦ attempted_usage
      | some out ↦
          with_cached
            (record attempted_usage {
              prompt_tokens = p;
              completion_tokens = out;
              total_tokens = total;
              reasoning_tokens = r;
              reported = true;
            })
            p cached
    ]
