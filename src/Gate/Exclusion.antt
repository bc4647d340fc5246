-- ===== src/Gate/Exclusion.antt =====
-- At most one call holds a key (internal/audit/keyed_gate.go).
use mathlib.Core.Path.{subst}
use deepseek_moderation_api.Prelude.{
  ℕ, ◌≤◌, ◌<◌, ◌≡◌, refl, sym, ap, ◌∙◌, true, false, List, [], ◌∷◌, ◌++◌, none, some, arith, All,
  All-map, String, str_eq, eq_iff, inl, inr, Bool-cases, Option-cases,
}
use deepseek_moderation_api.Gate.{KeyedGate, set_taken}
use deepseek_moderation_api.Gate.Steps.{
  waiting, holding, leaving, GateCall, World, Step, arrive, take, cancel, free, leave, Reachable,
  start, next, count, refs_to, holds_key,
}
use deepseek_moderation_api.Gate.Counts.{count-holds_key}
use deepseek_moderation_api.Gate.Invariant.{IsGated, to_front, from_front, set_taken-IsGated}
use deepseek_moderation_api.Gate.Refer.{refer-IsGated}
use deepseek_moderation_api.Gate.Drop.{drop-IsGated}

Step-IsGated : (w w' : World) → Step w w' → IsGated w.gate w.calls → IsGated w'.gate w'.calls
Step-IsGated _ _ (arrive w key) i = refer-IsGated w key i
Step-IsGated _ _ (take g xs ys key a unused) i =
    let c = to_front g xs _ ys i in
    from_front (set_taken g a true) xs _ ys
      (set_taken-IsGated g (xs ++ ys) key a waiting holding (ground (arith, c.taken a)) c)
Step-IsGated _ _ (cancel g xs ys key a) i =
    drop-IsGated g (xs ++ ys) key a waiting refl (to_front g xs _ ys i)
Step-IsGated _ _ (free g xs ys key a) i =
    let c = to_front g xs _ ys i in
    from_front (set_taken g a false) xs _ ys
      (set_taken-IsGated g (xs ++ ys) key a holding leaving (ground (arith, c.taken a)) c)
Step-IsGated _ _ (leave g xs ys key a) i =
    drop-IsGated g (xs ++ ys) key a leaving refl (to_front g xs _ ys i)

Reachable-IsGated : (w : World) → Reachable w → IsGated w.gate w.calls
Reachable-IsGated w start = record {
  refs = λ a. refl;
  taken = λ a. refl;
  found = tt;
  fresh = λ k a e. cc;
  own = λ k j a e f. cc;
  live = λ k a e. cc;
}
Reachable-IsGated w (next {w = w'} r s) = Step-IsGated w' w s (Reachable-IsGated w' r)

-- The calls of one key refer to one entry.
same_entry :
    (g : KeyedGate) (key : String) (a : ℕ) (cs : List GateCall)
    → g.entries key ≡ some a
    → All (λ c. g.entries c.key ≡ some c.entry) cs
    → All (λ c. str_eq key c.key ≡ true → c.entry ≡ a) cs
same_entry g key a cs e f =
    All-map _ _ cs
      (λ c h same.
        let k : key ≡ c.key = (eq_iff key c.key).0 same in inner (sym e ∙ ap g.entries k ∙ h))
      f
  where
    inner : {m n : ℕ} → some m ≡ some n → n ≡ m
    inner e = ground (arith, e)

no_calls :
    (g : KeyedGate) (key : String) (cs : List GateCall)
    → g.entries key ≡ none
    → All (λ c. g.entries c.key ≡ some c.entry) cs
    → count (holds_key key) cs ≡ 0
no_calls g key [] e f = refl
no_calls g key (c ∷ cs) e f = elim (Bool-cases (str_eq key c.key)) [
  | inl same ↦
      let k : key ≡ c.key = (eq_iff key c.key).0 same in
      absurd (clash (sym e ∙ ap g.entries k ∙ f.0))
  | inr other ↦ rw (other, no_calls g key cs e f.1) (omega arith)
]
  where
    clash : none ≡ some c.entry → ⊥
    clash h = cc

-- However calls arrive, are cancelled while they wait, take their turn and leave: at most one call
-- holds a key at any time; and the map is empty again once no call is left.
pub one_holder :
    (w : World) (key : String)
    → Reachable w
    → (count (holds_key key) w.calls ≤ 1) × (w.calls ≡ [] → w.gate.entries key ≡ none)
one_holder w key r =
    let i = Reachable-IsGated w r in
    elim (Option-cases (w.gate.entries key)) [
      | inl absent ↦ (omega (arith, no_calls w.gate key w.calls absent i.found), λ e. absent)
      | inr (a, present) ↦
          let h = count-holds_key key a w.calls (same_entry w.gate key a w.calls present i.found) in
          (
            ground (arith, h.0, i.taken a),
            λ e. absurd (ghost (subst (λ cs. 0 < count (refs_to a) cs) e (i.live key a present))),
          )
    ]
  where
    ghost : 0 < 0 → ⊥
    ghost l = omega (arith, l)
