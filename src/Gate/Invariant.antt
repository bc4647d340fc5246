-- ===== src/Gate/Invariant.antt =====
-- The invariant of a gate and its calls (internal/audit/keyed_gate.go).
use mathlib.Core.Path.{subst}
use deepseek_moderation_api.Prelude.{
  ℕ, ◌+◌, ◌<◌, ◌≡◌, ◌⊎◌, refl, sym, ◌∙◌, Bool, true, false, List, ◌∷◌, ◌++◌, some, arith, ◌==◌,
  if◌then◌else◌, All, String, inl, inr, Bool-cases,
}
use deepseek_moderation_api.Gate.{GateEntry, KeyedGate, set_entry, set_taken}
use deepseek_moderation_api.Gate.Steps.{Stage, GateCall, is_holding, count, refs_to, holds}
use deepseek_moderation_api.Gate.Counts.{count-insert, All-insert, insert-All}

-- An entry counts the calls that refer to it and is taken while one of them holds it; the map has the
-- entry of each call, no entry for two keys, and none without a call.
pub record IsGated (g : KeyedGate) (cs : List GateCall) : Type 0 where
  pub refs : (a : ℕ) → (g.heap a).refs ≡ count (refs_to a) cs
  pub taken : (a : ℕ) → count (holds a) cs ≡ (if (g.heap a).taken then 1 else 0)
  pub found : All (λ c. g.entries c.key ≡ some c.entry) cs
  pub fresh : (k : String) (a : ℕ) → g.entries k ≡ some a → a < g.next
  pub own : (k j : String) (a : ℕ) → g.entries k ≡ some a → g.entries j ≡ some a → k ≡ j
  pub live : (k : String) (a : ℕ) → g.entries k ≡ some a → 0 < count (refs_to a) cs

-- The place of a call among the others does not matter.
pub to_front :
    (g : KeyedGate) (xs : List GateCall) (c : GateCall) (ys : List GateCall)
    → IsGated g (xs ++ c ∷ ys)
    → IsGated g (c ∷ (xs ++ ys))
to_front g xs c ys i = record {
  refs = λ a. i.refs a ∙ count-insert (refs_to a) xs c ys;
  taken = λ a. sym (count-insert (holds a) xs c ys) ∙ i.taken a;
  found = All-insert _ xs c ys i.found;
  fresh = i.fresh;
  own = i.own;
  live = λ k a e. omega (arith, i.live k a e, count-insert (refs_to a) xs c ys);
}

pub from_front :
    (g : KeyedGate) (xs : List GateCall) (c : GateCall) (ys : List GateCall)
    → IsGated g (c ∷ (xs ++ ys))
    → IsGated g (xs ++ c ∷ ys)
from_front g xs c ys i = record {
  refs = λ a. i.refs a ∙ sym (count-insert (refs_to a) xs c ys);
  taken = λ a. count-insert (holds a) xs c ys ∙ i.taken a;
  found = insert-All _ xs c ys i.found.0 i.found.1;
  fresh = i.fresh;
  own = i.own;
  live = λ k a e. omega (arith, i.live k a e, count-insert (refs_to a) xs c ys);
}

pub heap_at :
    (heap : ℕ → GateEntry) (a x : ℕ) (e : GateEntry)
    → ((x ≡ a) × (set_entry heap a e x ≡ e) × ((a == x) ≡ true))
      ⊎ ((set_entry heap a e x ≡ heap x) × ((a == x) ≡ false))
heap_at heap a x e = elim (Bool-cases (x == a)) [
  | inl same ↦ rw same (inl (ground arith, refl, ground arith))
  | inr other ↦ rw other (inr (refl, ground arith))
]

-- The semaphore follows the stage of the one call that changes it.
pub set_taken-IsGated :
    (g : KeyedGate) (cs : List GateCall) (key : String) (a : ℕ) (s s' : Stage)
    → count (holds a) cs ≡ 0
    → IsGated g (record { key = key; entry = a; stage = s } ∷ cs)
    → IsGated (set_taken g a (is_holding s')) (record { key = key; entry = a; stage = s' } ∷ cs)
unfolding set_taken
set_taken-IsGated g cs key a s s' h i = record {
  refs = λ x. elim (heap_at g.heap a x (record (g.heap a) { taken = is_holding s' })) [
    | inl (same, e, hit) ↦ rw (e, hit) (rw (hit, same) at (i.refs x))
    | inr (e, missed) ↦ rw (e, missed) (rw missed at (i.refs x))
  ];
  taken = λ x. elim (heap_at g.heap a x (record (g.heap a) { taken = is_holding s' })) [
    | inl (same, e, hit) ↦
        let alone = subst (λ y. count (holds y) cs ≡ 0) (sym same) h in
        rw (e, hit) (only (is_holding s') alone)
    | inr (e, missed) ↦ rw (e, missed) (rw missed at (i.taken x))
  ];
  found = i.found;
  fresh = i.fresh;
  own = i.own;
  live = i.live;
}
  where
    only : {n : ℕ} (b : Bool) → n ≡ 0 → (if b then 1 else 0) + n ≡ (if b then 1 else 0)
    only true e = omega (arith, e)
    only false e = omega (arith, e)
