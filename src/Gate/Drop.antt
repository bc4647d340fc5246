-- ===== src/Gate/Drop.antt =====
-- A call gives up its reference to an entry (internal/audit/keyed_gate.go).
use mathlib.Core.Path.{subst}
use deepseek_moderation_api.Prelude.{
  ℕ, ◌+◌, ◌-◌, ◌<◌, ◌≡◌, sym, ap, ◌∙◌, true, false, List, [], ◌∷◌, Option, none, some, arith, ◌==◌,
  if◌then◌else◌, All, String, str_eq, eq_iff, inl, inr, Bool-cases,
}
use deepseek_moderation_api.Gate.{KeyedGate, set_entry, set_key, drop}
use deepseek_moderation_api.Gate.Steps.{Stage, GateCall, is_holding, count, refs_to, holds}
use deepseek_moderation_api.Gate.Invariant.{IsGated, heap_at}

-- Forgetting a key forgets no entry that a call still refers to.
forget-found :
    (entries : String → Option ℕ) (key : String) (a : ℕ) (cs : List GateCall)
    → entries key ≡ some a
    → count (refs_to a) cs ≡ 0
    → All (λ c. entries c.key ≡ some c.entry) cs
    → All (λ c. set_key entries key none c.key ≡ some c.entry) cs
forget-found entries key a [] e z f = tt
forget-found entries key a (c ∷ cs) e z f = (
  elim (Bool-cases (str_eq key c.key)) [
    | inr other ↦ rw other f.0
    | inl same ↦
        let k : key ≡ c.key = (eq_iff key c.key).0 same in
        let one : some a ≡ some c.entry = sym e ∙ ap entries k ∙ f.0 in
        absurd (ground (arith, one, z))
  ],
  forget-found entries key a cs e (ground (arith, z)) f.1,
)

forget-some :
    (entries : String → Option ℕ) (key k : String) (a : ℕ)
    → set_key entries key none k ≡ some a
    → (str_eq key k ≡ false) × (entries k ≡ some a)
forget-some entries key k a h = elim (Bool-cases (str_eq key k)) [
  | inl same ↦ absurd (clash (rw same at h))
  | inr other ↦ (other, rw other at h)
]
  where
    clash : none ≡ some a → ⊥
    clash e = cc

drop-refs :
    (g : KeyedGate) (cs : List GateCall) (key : String) (a : ℕ) (s : Stage)
    → IsGated g (record { key = key; entry = a; stage = s } ∷ cs)
    → (g.heap a).refs - 1 ≡ count (refs_to a) cs
drop-refs g cs key a s i = ground (arith, i.refs a)

drop-heap :
    (g : KeyedGate) (cs : List GateCall) (key : String) (a x : ℕ) (s : Stage)
    → is_holding s ≡ false
    → IsGated g (record { key = key; entry = a; stage = s } ∷ cs)
    → ((set_entry g.heap a (record (g.heap a) { refs = (g.heap a).refs - 1 }) x).refs
        ≡ count (refs_to x) cs)
      × (count (holds x) cs ≡ (
          if (set_entry g.heap a (record (g.heap a) { refs = (g.heap a).refs - 1 }) x).taken
          then 1
          else 0))
drop-heap g cs key a x s idle i =
    elim (heap_at g.heap a x (record (g.heap a) { refs = (g.heap a).refs - 1 })) [
      | inl (same, e, hit) ↦ rw e (
        drop-refs g cs key a s i ∙ ap (λ y. count (refs_to y) cs) (sym same),
        ap (λ y. count (holds y) cs) same ∙ unplus (rw (self a, idle) at (i.taken a)),
      )
      | inr (e, missed) ↦
          rw e (sym (unplus (sym (rw missed at (i.refs x)))), unplus (rw missed at (i.taken x)))
    ]
  where
    self : (n : ℕ) → (n == n) ≡ true
    self n = ground arith

    unplus : {m n : ℕ} → 0 + n ≡ m → n ≡ m
    unplus e = omega (arith, e)

-- A call that holds nothing any more gives up its reference.
pub drop-IsGated :
    (g : KeyedGate) (cs : List GateCall) (key : String) (a : ℕ) (s : Stage)
    → is_holding s ≡ false
    → IsGated g (record { key = key; entry = a; stage = s } ∷ cs)
    → IsGated (drop g key a) cs
unfolding drop
drop-IsGated g cs key a s idle i = elim (Bool-cases ((g.heap a).refs - 1 == 0)) [
  | inl last ↦
      let none_left : count (refs_to a) cs ≡ 0 = ground (arith, drop-refs g cs key a s i) in
      rw last (record {
        refs = λ x. (drop-heap g cs key a x s idle i).0;
        taken = λ x. (drop-heap g cs key a x s idle i).1;
        found = forget-found g.entries key a cs i.found.0 none_left i.found.1;
        fresh = λ k x e. i.fresh k x (forget-some g.entries key k x e).1;
        own = λ k j x e f.
            i.own k j x (forget-some g.entries key k x e).1 (forget-some g.entries key j x f).1;
        live = λ k x e.
            let (other, e') = forget-some g.entries key k x e in
            live_rest a x _ (i.live k x e') (λ same.
              absurd (other_self key k other (i.own key k x (i.found.0 ∙ ap some same) e')));
      })
  | inr shared ↦ rw shared (record {
    refs = λ x. (drop-heap g cs key a x s idle i).0;
    taken = λ x. (drop-heap g cs key a x s idle i).1;
    found = i.found.1;
    fresh = i.fresh;
    own = i.own;
    live = λ k x e. live_rest a x _ (i.live k x e) (λ same.
        subst (λ y. 0 < count (refs_to y) cs) same (still_some (drop-refs g cs key a s i) shared));
  })
]
  where
    live_rest : (a x n : ℕ) → 0 < (if a == x then 1 else 0) + n → (a ≡ x → 0 < n) → 0 < n
    live_rest a x n l f = elim (Bool-cases (a == x)) [
      | inl hit ↦ f (ground arith)
      | inr missed ↦ ground arith
    ]

    other_self : (k j : String) → str_eq k j ≡ false → k ≡ j → ⊥
    other_self k j h e = ground (arith, eq_iff k j)

    still_some : {m n : ℕ} → m ≡ n → (m == 0) ≡ false → 0 < n
    still_some e z = ground arith
