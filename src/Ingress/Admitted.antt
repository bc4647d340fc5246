-- ===== src/Ingress/Admitted.antt =====
-- Runs of the guard with calls that come in and are released (internal/audit/ingress.go).
use deepseek_moderation_api.Prelude.{
  ◌+◌, ◌-◌, ◌<◌, ◌≡◌, refl, ap, true, false, List, [], ◌∷◌, Option, none, some, String, str_eq,
  eq_iff, arith, any, if◌then◌else◌, length, Bool-cases, inl, inr,
}
use mathlib.Core.Path.{subst}
use deepseek_moderation_api.Ingress.{
  Float64, IngressLimits, IngressBucket, IngressGuard, is_new, find_client, put_client, done,
  release_client, release,
}
use deepseek_moderation_api.Ingress.Clients.{
  active_of, calls_of, find_client-put_client, find_client-put_other, length-put_client,
  put_client-IsDistinct,
}
use deepseek_moderation_api.Ingress.Holders.{
  Event, request, finished, World, count_of, drop_one, pass, pass_all, empty_guard, IsGuarded,
  acquire-IsGuarded,
}

length-drop_one :
    (ip : String) (hs : List String)
    → any (λ h. str_eq h ip) hs ≡ true
    → length hs ≡ length (drop_one ip hs) + 1
unfolding drop_one
length-drop_one ip [] p = cc
length-drop_one ip (h ∷ hs) p = elim (Bool-cases (str_eq h ip)) [
  | inl hit ↦ rw hit (omega arith)
  | inr other ↦ let rest = length-drop_one ip hs (ground arith) in rw other (omega arith)
]

count_of-drop_one :
    (ip j : String) (hs : List String)
    → any (λ h. str_eq h ip) hs ≡ true
    → count_of j hs ≡ (if str_eq ip j then 1 else 0) + count_of j (drop_one ip hs)
unfolding drop_one count_of
count_of-drop_one ip j [] p = cc
count_of-drop_one ip j (h ∷ hs) p = elim (Bool-cases (str_eq h ip)) [
  | inl hit ↦ let same : h ≡ ip = (eq_iff h ip).0 hit in rw (hit, same) refl
  | inr other ↦ let rest = count_of-drop_one ip j hs (ground arith) in rw other (omega arith)
]

done-calls_of :
    (ip j : String) (b : IngressBucket) (cs : List (String × IngressBucket))
    → find_client ip cs ≡ some b
    → 0 < b.active
    → calls_of j cs ≡ (if str_eq ip j then 1 else 0) + calls_of j (put_client ip (done b) cs)
done-calls_of ip j b cs e l = elim (Bool-cases (str_eq ip j)) [
  | inl same ↦
      let same' : ip ≡ j = (eq_iff ip j).0 same in
      let old : calls_of ip cs ≡ b.active = ap active_of e in
      let new : calls_of ip (put_client ip (done b) cs) ≡ b.active - 1 =
        ap active_of (find_client-put_client ip (done b) cs) in
      let here : calls_of ip cs ≡ 1 + calls_of ip (put_client ip (done b) cs) = omega arith in
      rw same (subst (λ x. calls_of x cs ≡ 1 + calls_of x (put_client ip (done b) cs)) same' here)
  | inr other ↦
      let kept = ap active_of (find_client-put_other ip j (done b) cs other) in
      rw other (omega arith)
]

release_client-IsGuarded :
    (limits : IngressLimits) (g : IngressGuard) (hs : List String) (ip : String)
    (known : Option IngressBucket)
    → find_client ip g.clients ≡ known
    → any (λ h. str_eq h ip) hs ≡ true
    → 0 < active_of known
    → IsGuarded limits (record { guard = g; holders = hs })
    → IsGuarded limits (record { guard = release_client g ip known; holders = drop_one ip hs })
release_client-IsGuarded limits g hs ip none e held l h = absurd (omega arith)
release_client-IsGuarded limits g hs ip (some b) e held l h =
    let fewer = length-drop_one ip hs held in
    record {
      limits_kept = h.limits_kept;
      counted = let c = h.counted in omega arith;
      within = let w = h.within in omega arith;
      distinct = put_client-IsDistinct ip (done b) g.clients h.distinct;
      counted_by = λ j.
          let before = h.counted_by j in
          let dropped = count_of-drop_one ip j hs held in
          let left = done-calls_of ip j b g.clients e l in omega arith;
      within_by =
          λ j. let w = h.within_by j in let dropped = count_of-drop_one ip j hs held in omega arith;
      bounded =
          let n = length-put_client ip (done b) g.clients in
          let m = h.bounded in
          let old : is_new (find_client ip g.clients) ≡ false = ap is_new e in ground arith;
    }

release-IsGuarded :
    (limits : IngressLimits) (w : World) (ip : String)
    → any (λ h. str_eq h ip) w.holders ≡ true
    → IsGuarded limits w
    → IsGuarded limits (record { guard = release w.guard ip; holders = drop_one ip w.holders })
unfolding release
release-IsGuarded limits w ip held h =
    let some_calls = count_of-drop_one ip ip w.holders held in
    let counted = h.counted_by ip in
    let same : str_eq ip ip ≡ true = (eq_iff ip ip).1 refl in
    let inside : count_of ip w.holders ≡ 1 + count_of ip (drop_one ip w.holders) =
      rw same at some_calls in
    release_client-IsGuarded limits w.guard w.holders ip (find_client ip w.guard.clients) refl held
      (omega arith) h

pass-IsGuarded :
    (float : Float64) (limits : IngressLimits) (w : World) (e : Event)
    → IsGuarded limits w
    → IsGuarded limits (pass float w e)
pass-IsGuarded float limits w (request ip now) h =
    acquire-IsGuarded float limits w.guard w.holders ip now h
pass-IsGuarded float limits w (finished ip) h =
    elim (Bool-cases (any (λ h. str_eq h ip) w.holders)) [
      | inl held ↦ rw held (release-IsGuarded limits w ip held h)
      | inr nobody ↦ rw nobody h
    ]

pass_all-kept :
    (float : Float64) (limits : IngressLimits) (w : World) (es : List Event)
    → IsGuarded limits w
    → IsGuarded limits (pass_all float w es)
pass_all-kept float limits w [] h = h
pass_all-kept float limits w (e ∷ es) h =
    pass_all-kept float limits (pass float w e) es (pass-IsGuarded float limits w e h)

empty_guard-IsGuarded : (limits : IngressLimits) → IsGuarded limits (empty_guard limits)
unfolding find_client count_of
empty_guard-IsGuarded limits = record {
  limits_kept = refl;
  counted = refl;
  within = omega arith;
  distinct = tt;
  counted_by = λ ip. refl;
  within_by = λ ip. omega arith;
  bounded = omega arith;
}

-- Whatever requests from whatever addresses come and go, at whatever times and however the tokens
-- are rounded: the guard's count is the number of calls inside, which never exceeds the limit of
-- concurrency; the count of each address is the number of its calls inside, which never exceeds the
-- limit for an address; and there are never more buckets than `max_clients`, one for an address.
pub pass_all-IsGuarded :
    (float : Float64) (limits : IngressLimits) (es : List Event)
    → IsGuarded limits (pass_all float (empty_guard limits) es)
pass_all-IsGuarded float limits es =
    pass_all-kept float limits (empty_guard limits) es (empty_guard-IsGuarded limits)
