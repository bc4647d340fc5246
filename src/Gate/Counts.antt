-- ===== src/Gate/Counts.antt =====
-- Counting the calls at a gate (internal/audit/keyed_gate.go).
use deepseek_moderation_api.Prelude.{
  ℕ, ◌+◌, ◌≤◌, ◌<◌, ◌≡◌, refl, Bool, true, List, [], ◌∷◌, ◌++◌, arith, if◌then◌else◌, All, String,
  str_eq,
}
use deepseek_moderation_api.Gate.Steps.{GateCall, count, refs_to, holds, is_for, holds_key}

pub count-insert :
    (p : GateCall → Bool) (xs : List GateCall) (c : GateCall) (ys : List GateCall)
    → count p (xs ++ c ∷ ys) ≡ (if p c then 1 else 0) + count p (xs ++ ys)
count-insert p [] c ys = refl
count-insert p (x ∷ xs) c ys = omega (arith, count-insert p xs c ys)

pub All-insert {κ} :
    (P : GateCall → Type κ) (xs : List GateCall) (c : GateCall) (ys : List GateCall)
    → All P (xs ++ c ∷ ys)
    → P c × All P (xs ++ ys)
All-insert P [] c ys a = a
All-insert P (x ∷ xs) c ys a = let (p, rest) = All-insert P xs c ys a.1 in (p, (a.0, rest))

pub insert-All {κ} :
    (P : GateCall → Type κ) (xs : List GateCall) (c : GateCall) (ys : List GateCall)
    → P c
    → All P (xs ++ ys)
    → All P (xs ++ c ∷ ys)
insert-All P [] c ys p a = (p, a)
insert-All P (x ∷ xs) c ys p a = (a.0, insert-All P xs c ys p a.1)

-- No call refers to an address from `next` on.
pub count-fresh :
    (a : ℕ) (cs : List GateCall)
    → All (λ c. c.entry < a) cs
    → (count (refs_to a) cs ≡ 0) × (count (holds a) cs ≡ 0)
count-fresh a [] f = (refl, refl)
count-fresh a (c ∷ cs) f = ground (arith, count-fresh a cs f.1, f.0)

-- The calls of a key all refer to the entry that the map has for it.
pub count-holds_key :
    (key : String) (a : ℕ) (cs : List GateCall)
    → All (λ c. str_eq key c.key ≡ true → c.entry ≡ a) cs
    → (count (holds_key key) cs ≤ count (holds a) cs)
      × (count (is_for key) cs ≤ count (refs_to a) cs)
count-holds_key key a [] f = (omega arith, omega arith)
count-holds_key key a (c ∷ cs) f = ground (arith, count-holds_key key a cs f.1, f.0)
