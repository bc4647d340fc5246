-- ===== src/Examples/Admission.antt =====
-- Two requests under a small configuration: internal/audit/runtime.go.
use deepseek_moderation_api.Prelude.{◌≡◌, refl, true, [], ◌∷◌, arith, ok}
use deepseek_moderation_api.Prelude.Int.{pos, negsuc}
use deepseek_moderation_api.Admission.{default_runtime_config, acquire, validate, counted_length}
use deepseek_moderation_api.Admission.Budget.{
  Flight, empty_flight, after_acquire, arrive, start, next, IsBudgeted, Reachable-IsBudgeted,
  acquire-idle,
}

-- A request without a length counts with its limit of 1 MiB.
abbrev one_request : Flight
one_request =
    after_acquire empty_flight
      (acquire default_runtime_config empty_flight.admission (negsuc 0) 1_048_576)

one_request-held : one_request.held ≡ 1_048_576 ∷ []
unfolding acquire
one_request-held = refl

Reachable-IsBudgeted_example : IsBudgeted default_runtime_config one_request
Reachable-IsBudgeted_example =
    Reachable-IsBudgeted default_runtime_config one_request
      (next start (arrive empty_flight (negsuc 0) 1_048_576))

default-valid : validate default_runtime_config ≡ true
unfolding validate
default-valid = refl

acquire-idle_example :
    (acquire default_runtime_config empty_flight.admission (pos 500) 1_048_576).1
    ≡ ok (counted_length (pos 500) 1_048_576)
acquire-idle_example =
    acquire-idle default_runtime_config empty_flight (pos 500) 1_048_576 start default-valid refl
      refl (omega arith)
