-- ===== src/Examples/Usage.antt =====
-- Token counts that a provider reports: internal/audit/pricing.go and internal/audit/provider.go.
use deepseek_moderation_api.Prelude.{◌≡◌, true, some, none}
use deepseek_moderation_api.Prelude.Int.{pos}
use deepseek_moderation_api.Usage.{WireUsage, unmarshal_usage, normalize_grok_usage}
use deepseek_moderation_api.Usage.Consistent.{
  IsConsistent, unmarshal_usage-IsConsistent, normalize_grok_usage-IsConsistent,
}

abbrev wire : WireUsage
wire = record {
  wire_prompt = some (pos 300);
  wire_completion = some (pos 20);
  wire_total = some (pos 320);
  wire_hit = some (pos 100);
  wire_miss = some (pos 200);
  wire_reported = none;
  wire_reasoning = pos 0;
  details_reasoning = pos 8;
}

unmarshal_usage-IsConsistent_example : IsConsistent (unmarshal_usage (some wire))
unmarshal_usage-IsConsistent_example = unmarshal_usage-IsConsistent (some wire)

-- 12 tokens of reasoning that the output of 20 leaves out.
normalize_grok_usage-IsConsistent_example :
    IsConsistent (normalize_grok_usage (pos 300) (pos 20) (pos 332) (pos 12) (some (pos 100)))
    × ((normalize_grok_usage (pos 300) (pos 20) (pos 332) (pos 12) (some (pos 100))).reported ≡ true
        → (normalize_grok_usage (pos 300) (pos 20) (pos 332) (pos 12) (some (pos 100))).total_tokens
          ≡ pos 332)
normalize_grok_usage-IsConsistent_example =
    normalize_grok_usage-IsConsistent (pos 300) (pos 20) (pos 332) (pos 12) (some (pos 100))
