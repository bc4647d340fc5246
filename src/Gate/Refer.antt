-- ===== src/Gate/Refer.antt =====
-- A call finds or makes the entry of its key (internal/audit/keyed_gate.go).
use deepseek_moderation_api.Prelude.{
  ℕ, ◌+◌, ◌<◌, ◌≡◌, ◌⊎◌, refl, sym, ap, ◌∙◌, true, false, List, [], ◌∷◌, Option, none, some, arith,
  ◌==◌, All, All-map, String, str_eq, str_eq_self, eq_iff, inl, inr, Bool-cases,
}
use deepseek_moderation_api.Gate.{GateEntry, KeyedGate, add_ref, create, refer_to, refer}
use deepseek_moderation_api.Gate.Steps.{
  waiting, GateCall, World, after_refer, count, refs_to, holds,
}
use deepseek_moderation_api.Gate.Counts.{count-fresh}
use deepseek_moderation_api.Gate.Invariant.{IsGated, heap_at}

All-below :
    (g : KeyedGate) (cs : List GateCall)
    → ((k : String) (a : ℕ) → g.entries k ≡ some a → a < g.next)
    → All (λ c. g.entries c.key ≡ some c.entry) cs
    → All (λ c. c.entry < g.next) cs
All-below g cs fresh f = All-map _ _ cs (λ c e. fresh c.key c.entry e) f

add_ref-IsGated :
    (g : KeyedGate) (cs : List GateCall) (key : String) (a : ℕ)
    → g.entries key ≡ some a
    → IsGated g cs
    → IsGated (add_ref g a) (record { key = key; entry = a; stage = waiting } ∷ cs)
add_ref-IsGated g cs key a e i = record {
  refs = λ x. elim (heap_at g.heap a x (record (g.heap a) { refs = (g.heap a).refs + 1 })) [
    | inl (same, h, hit) ↦
        rw (h, hit) (one_more (i.refs a ∙ ap (λ y. count (refs_to y) cs) (sym same)))
    | inr (h, missed) ↦ rw (h, missed) (plus_zero (i.refs x))
  ];
  taken = λ x. elim (heap_at g.heap a x (record (g.heap a) { refs = (g.heap a).refs + 1 })) [
    | inl (same, h, hit) ↦ rw (h, hit) (zero_plus (ap (λ y. count (holds y) cs) same ∙ i.taken a))
    | inr (h, missed) ↦ rw (h, missed) (zero_plus (i.taken x))
  ];
  found = (e, i.found);
  fresh = i.fresh;
  own = i.own;
  live = λ k x f. omega (arith, i.live k x f);
}
  where
    one_more : {m n : ℕ} → m ≡ n → m + 1 ≡ 1 + n
    one_more e = omega (arith, e)

    plus_zero : {m n : ℕ} → m ≡ n → m ≡ 0 + n
    plus_zero e = omega (arith, e)

    zero_plus : {m n : ℕ} → m ≡ n → 0 + m ≡ n
    zero_plus e = omega (arith, e)

-- A new entry, to which no call refers yet, breaks nothing but `live`: so the reference is added at
-- once.
create-found :
    (g : KeyedGate) (cs : List GateCall) (key : String)
    → g.entries key ≡ none
    → All (λ c. g.entries c.key ≡ some c.entry) cs
    → All (λ c. (create g key).entries c.key ≡ some c.entry) cs
create-found g [] key e f = tt
create-found g (c ∷ cs) key e f = (
  elim (Bool-cases (str_eq key c.key)) [
    | inr other ↦ rw other f.0
    | inl same ↦
        let k : key ≡ c.key = (eq_iff key c.key).0 same in
        absurd (clash (sym e ∙ ap g.entries k ∙ f.0))
  ],
  create-found g cs key e f.1,
)
  where
    clash : {a : ℕ} → none ≡ some a → ⊥
    clash e = cc

create-some :
    (g : KeyedGate) (key k : String) (a : ℕ)
    → (create g key).entries k ≡ some a
    → ((key ≡ k) × (a ≡ g.next)) ⊎ (g.entries k ≡ some a)
create-some g key k a h = elim (Bool-cases (str_eq key k)) [
  | inl same ↦ inl ((eq_iff key k).0 same, same_some (rw same at h))
  | inr other ↦ inr (rw other at h)
]
  where
    same_some : {a b : ℕ} → some b ≡ some a → a ≡ b
    same_some e = ground (arith, e)

create-heap :
    (g : KeyedGate) (key : String)
    → (((create g key).heap g.next).refs ≡ 0) × (((create g key).heap g.next).taken ≡ false)
create-heap g key = rw (self g.next) (refl, refl)
  where
    self : (n : ℕ) → (n == n) ≡ true
    self n = ground arith

create-heap_other :
    (g : KeyedGate) (key : String) (x : ℕ)
    → (g.next == x) ≡ false
    → (create g key).heap x ≡ g.heap x
create-heap_other g key x missed = let other : (x == g.next) ≡ false = ground arith in rw other refl

create-IsGated :
    (g : KeyedGate) (cs : List GateCall) (key : String)
    → g.entries key ≡ none
    → IsGated g cs
    → IsGated
        (add_ref (create g key) g.next)
        (record { key = key; entry = g.next; stage = waiting } ∷ cs)
create-IsGated g cs key e i = record {
  refs = λ x. elim (heap_at h g.next x (record (h g.next) { refs = (h g.next).refs + 1 })) [
    | inl (same, at_x, hit) ↦
        rw (at_x, hit)
          (sums (create-heap g key).0 (ap (λ y. count (refs_to y) cs) same ∙ none_yet.0))
    | inr (at_x, missed) ↦
        rw (at_x, missed, create-heap_other g key x missed) (plus_zero (i.refs x))
  ];
  taken = λ x. elim (heap_at h g.next x (record (h g.next) { refs = (h g.next).refs + 1 })) [
    | inl (same, at_x, hit) ↦
        rw (at_x, hit, (create-heap g key).1)
          (zero_plus (ap (λ y. count (holds y) cs) same ∙ none_yet.1))
    | inr (at_x, missed) ↦
        rw (at_x, missed, create-heap_other g key x missed) (zero_plus (i.taken x))
  ];
  found = (rw (str_eq_self key) refl, create-found g cs key e i.found);
  fresh = λ k a f. elim (create-some g key k a f) [
    | inl (same, new) ↦ omega (arith, new)
    | inr old ↦ omega (arith, i.fresh k a old)
  ];
  own = λ k j a f f'. owner k j a (create-some g key k a f) (create-some g key j a f');
  live = λ k a f. elim (create-some g key k a f) [
    | inl (same, new) ↦ ground (arith, new)
    | inr old ↦ omega (arith, i.live k a old)
  ];
}
  where
    h : ℕ → GateEntry
    h = (create g key).heap

    none_yet : (count (refs_to g.next) cs ≡ 0) × (count (holds g.next) cs ≡ 0)
    none_yet = count-fresh g.next cs (All-below g cs i.fresh i.found)

    sums : {m n : ℕ} → m ≡ 0 → n ≡ 0 → m + 1 ≡ 1 + n
    sums e f = omega (arith, e, f)

    plus_zero : {m n : ℕ} → m ≡ n → m ≡ 0 + n
    plus_zero e = omega (arith, e)

    zero_plus : {m n : ℕ} → m ≡ n → 0 + m ≡ n
    zero_plus e = omega (arith, e)

    owner :
        (k j : String) (a : ℕ)
        → ((key ≡ k) × (a ≡ g.next)) ⊎ (g.entries k ≡ some a)
        → ((key ≡ j) × (a ≡ g.next)) ⊎ (g.entries j ≡ some a)
        → k ≡ j
    owner k j a (inl (p, _)) (inl (q, _)) = sym p ∙ q
    owner k j a (inl (p, new)) (inr old) = absurd (omega (arith, new, i.fresh j a old))
    owner k j a (inr old) (inl (q, new)) = absurd (omega (arith, new, i.fresh k a old))
    owner k j a (inr old) (inr old') = i.own k j a old old'

refer_to-IsGated :
    (w : World) (key : String) (o : Option ℕ)
    → w.gate.entries key ≡ o
    → IsGated w.gate w.calls
    → IsGated
        (after_refer w key (refer_to w.gate key o)).gate
        (after_refer w key (refer_to w.gate key o)).calls
refer_to-IsGated w key none e i = create-IsGated w.gate w.calls key e i
refer_to-IsGated w key (some a) e i = add_ref-IsGated w.gate w.calls key a e i

pub refer-IsGated :
    (w : World) (key : String)
    → IsGated w.gate w.calls
    → IsGated
        (after_refer w key (refer w.gate key)).gate
        (after_refer w key (refer w.gate key)).calls
unfolding refer
refer-IsGated w key i = refer_to-IsGated w key (w.gate.entries key) refl i
