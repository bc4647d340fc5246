-- ===== src/Examples/Gate.antt =====
-- Two calls of one key: internal/audit/keyed_gate.go.
use deepseek_moderation_api.Prelude.{◌≤◌, ◌≡◌, refl, [], none, some}
use deepseek_moderation_api.Gate.{refer}
use deepseek_moderation_api.Gate.Steps.{
  World, fresh_world, after_refer, arrive, start, next, count, holds_key,
}
use deepseek_moderation_api.Gate.Exclusion.{one_holder}

abbrev one_call : World
one_call = after_refer fresh_world "key" (refer fresh_world.gate "key")

abbrev two_calls : World
two_calls = after_refer one_call "key" (refer one_call.gate "key")

second-entry : two_calls.gate.entries "key" ≡ some 0
unfolding refer
second-entry = refl

one_holder_example :
    (count (holds_key "key") two_calls.calls ≤ 1)
    × (two_calls.calls ≡ [] → two_calls.gate.entries "key" ≡ none)
one_holder_example =
    one_holder two_calls "key"
      (next (next start (arrive fresh_world "key")) (arrive one_call "key"))
