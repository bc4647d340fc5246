-- ===== src/Ingress/Clients.antt =====
-- The buckets of the addresses as a map (internal/audit/ingress.go).
use deepseek_moderation_api.Prelude.{
  ℕ, ◌+◌, ◌≤◌, ◌≡◌, refl, sym, ◌∙◌, Bool, false, ◌&&◌, List, [], ◌∷◌, Option, none, some, String,
  str_eq, str_eq_self, eq_iff, ==_iff, arith, any, leb, ◌==◌, if◌then◌else◌, length, Bool-cases,
  inl, inr,
}
use mathlib.Core.Path.{subst}
use deepseek_moderation_api.Clock.{minute}
use deepseek_moderation_api.Ingress.{IngressBucket, find_client, put_client, evict, is_new}

abbrev pub has_client : String → List (String × IngressBucket) → Bool
has_client ip cs = any (λ c. str_eq c.0 ip) cs

-- An address has one bucket at most.
abbrev pub IsDistinct : List (String × IngressBucket) → Type 0
IsDistinct [] = Unit {0}
IsDistinct (c ∷ cs) = (has_client c.0 cs ≡ false) × IsDistinct cs

abbrev pub active_of : Option IngressBucket → ℕ
active_of none = 0
active_of (some b) = b.active

abbrev pub calls_of : String → List (String × IngressBucket) → ℕ
calls_of ip cs = active_of (find_client ip cs)

pub find_client-put_client :
    (ip : String) (b : IngressBucket) (cs : List (String × IngressBucket))
    → find_client ip (put_client ip b cs) ≡ some b
unfolding find_client put_client
find_client-put_client ip b [] = rw (str_eq_self ip) refl
find_client-put_client ip b (c ∷ cs) = elim (Bool-cases (str_eq c.0 ip)) [
  | inl hit ↦ rw (hit, str_eq_self ip) refl
  | inr other ↦ rw (other, other) (find_client-put_client ip b cs)
]

pub find_client-put_other :
    (ip j : String) (b : IngressBucket) (cs : List (String × IngressBucket))
    → str_eq ip j ≡ false
    → find_client j (put_client ip b cs) ≡ find_client j cs
unfolding find_client put_client
find_client-put_other ip j b [] n = rw n refl
find_client-put_other ip j b (c ∷ cs) n = elim (Bool-cases (str_eq c.0 ip)) [
  | inl hit ↦
      let same : str_eq c.0 j ≡ false =
        subst (λ x. str_eq x j ≡ false) (sym ((eq_iff c.0 ip).0 hit)) n in
      rw (hit, n, same) refl
  | inr other ↦ rw (other, find_client-put_other ip j b cs n) refl
]

pub length-put_client :
    (ip : String) (b : IngressBucket) (cs : List (String × IngressBucket))
    → length (put_client ip b cs) ≤ length cs + (if is_new (find_client ip cs) then 1 else 0)
unfolding find_client put_client
length-put_client ip b [] = omega arith
length-put_client ip b (c ∷ cs) = elim (Bool-cases (str_eq c.0 ip)) [
  | inl hit ↦ rw hit (omega arith)
  | inr other ↦ let rest = length-put_client ip b cs in rw other (omega arith)
]

has_client-put_other :
    (ip j : String) (b : IngressBucket) (cs : List (String × IngressBucket))
    → str_eq ip j ≡ false
    → has_client j (put_client ip b cs) ≡ has_client j cs
unfolding put_client
has_client-put_other ip j b [] n = rw n refl
has_client-put_other ip j b (c ∷ cs) n = elim (Bool-cases (str_eq c.0 ip)) [
  | inl hit ↦
      let same : str_eq c.0 j ≡ false =
        subst (λ x. str_eq x j ≡ false) (sym ((eq_iff c.0 ip).0 hit)) n in
      rw (hit, n, same) refl
  | inr other ↦ rw (other, has_client-put_other ip j b cs n) refl
]

pub put_client-IsDistinct :
    (ip : String) (b : IngressBucket) (cs : List (String × IngressBucket))
    → IsDistinct cs
    → IsDistinct (put_client ip b cs)
unfolding put_client
put_client-IsDistinct ip b [] d = (refl, tt)
put_client-IsDistinct ip b (c ∷ cs) d = elim (Bool-cases (str_eq c.0 ip)) [
  | inl hit ↦ rw hit (subst (λ x. has_client x cs ≡ false) ((eq_iff c.0 ip).0 hit) d.0, d.1)
  | inr other ↦ rw other (
    has_client-put_other ip c.0 b cs (ground (arith, eq_iff c.0 ip, eq_iff ip c.0)) ∙ d.0,
    put_client-IsDistinct ip b cs d.1,
  )
]

absent-find_client :
    (ip : String) (cs : List (String × IngressBucket))
    → has_client ip cs ≡ false
    → find_client ip cs ≡ none
unfolding find_client
absent-find_client ip [] h = refl
absent-find_client ip (c ∷ cs) h = ground (arith, absent-find_client ip cs)

abbrev is_idle : ℕ → String × IngressBucket → Bool
is_idle now c = c.1.active == 0 && leb (c.1.updated + minute) now

absent-evict :
    (ip : String) (now : ℕ) (cs : List (String × IngressBucket))
    → has_client ip cs ≡ false
    → has_client ip (evict now cs) ≡ false
unfolding evict
absent-evict ip now [] h = h
absent-evict ip now (c ∷ cs) h = ground (arith, absent-evict ip now cs)

pub evict-IsDistinct :
    (now : ℕ) (cs : List (String × IngressBucket)) → IsDistinct cs → IsDistinct (evict now cs)
unfolding evict
evict-IsDistinct now [] d = tt
evict-IsDistinct now (c ∷ cs) d = elim (Bool-cases (is_idle now c)) [
  | inl idle ↦ rw idle (evict-IsDistinct now cs d.1)
  | inr kept ↦ rw kept (absent-evict c.0 now cs d.0, evict-IsDistinct now cs d.1)
]

pub length-evict :
    (now : ℕ) (cs : List (String × IngressBucket)) → length (evict now cs) ≤ length cs
unfolding evict
length-evict now [] = omega arith
length-evict now (c ∷ cs) = ground (arith, length-evict now cs)

-- A bucket that is removed has no calls.
pub calls_of-evict :
    (ip : String) (now : ℕ) (cs : List (String × IngressBucket))
    → IsDistinct cs
    → calls_of ip (evict now cs) ≡ calls_of ip cs
unfolding evict find_client
calls_of-evict ip now [] d = refl
calls_of-evict ip now (c ∷ cs) d = elim (Bool-cases (is_idle now c)) [
  | inr kept ↦ elim (Bool-cases (str_eq c.0 ip)) [
    | inl hit ↦ rw (kept, hit) refl
    | inr other ↦ rw (kept, other) (calls_of-evict ip now cs d.1)
  ]
  | inl idle ↦ elim (Bool-cases (str_eq c.0 ip)) [
    | inr other ↦ rw (idle, other) (calls_of-evict ip now cs d.1)
    | inl hit ↦
        let gone : has_client ip cs ≡ false =
          subst (λ x. has_client x cs ≡ false) ((eq_iff c.0 ip).0 hit) d.0 in
        let free : c.1.active ≡ 0 = ground (arith, ==_iff c.1.active 0) in
        rw (idle, hit, absent-find_client ip (evict now cs) (absent-evict ip now cs gone))
          (sym free)
  ]
]
