-- ===== src/Policy/Ready.antt =====
-- What the attempts of a request may rely on (internal/audit/router.go, executeRoute).
use deepseek_moderation_api.Prelude.{
  ℕ, ◌≤◌, ◌≡◌, refl, Bool, true, false, not, ◌&&◌, List, [], ◌∷◌, some, str_eq, arith, map, ltb,
  Bool-cases, Option-cases, inl, inr, ap, sym, All, Result, ok, err, Failure, >>=-eq-ok, refuse_if,
  problem, if◌then◌else◌,
}
use mathlib.Core.Path.{subst}
use deepseek_moderation_api.Prelude.Int.{ℤ, pos_part}
use deepseek_moderation_api.Keywords.{is_blank}
use deepseek_moderation_api.Router.Limits.{DistinctIds}
use deepseek_moderation_api.Policy.Config.{validate_config}
use deepseek_moderation_api.Policy.Settings.{
  ChannelBinding, PolicySettings, bindings, bindings_valid, validate_settings,
}
use deepseek_moderation_api.Policy.Candidates.{
  StoredChannel, Candidate, routed, RouteCredential, Resources, Environment, Request, Answers,
  passed_over, left_out, chosen, choose_all, is_asked, channel_config, consider, consider_bound,
  is_bound_to, has_price, equip, Start, Prepared, ready, check_only, has_budget, take_slot,
  choose_candidates, unless_keyword, prepare, find_binding,
}
use deepseek_moderation_api.Policy.Choices.{
  Distinct, id_of, Distinct-map, choose_all-All, choose_all-Distinct,
}
use deepseek_moderation_api.Policy.Bindings.{
  IsInRange, find_binding-IsInRange, validate_settings-bindings,
}

record IsConsidered (env : Environment) (s : PolicySettings) (r : Request) (x : StoredChannel)
    (c : Candidate) : Type 0 where
  same : c.channel ≡ x
  bound : find_binding x.id (bindings s) ≡ some c.binding
  turned_on : (c.binding.enabled && x.enabled && x.credential_active && is_asked r.only x.id) ≡ true
  config : validate_config env.parse env.origins env.one c.cfg ≡ true

consider_bound-IsConsidered :
    (env : Environment) (s : PolicySettings) (r : Request) (m : ℤ) (x : StoredChannel)
    (b : ChannelBinding) (c : Candidate)
    → find_binding x.id (bindings s) ≡ some b
    → (b.enabled && x.enabled && x.credential_active && is_asked r.only x.id) ≡ true
    → consider_bound env s r m x b ≡ ok (chosen c)
    → IsConsidered env s r x c
unfolding consider_bound
consider_bound-IsConsidered env s r m x b c found on e =
    elim (Bool-cases (x.text_only && ltb 0 r.images && is_blank r.input)) [
      | inl empty ↦ let no : ok left_out ≡ ok (chosen c) = rw empty at e in cc
      | inr text ↦ elim (Bool-cases (validate_config env.parse env.origins env.one k.cfg)) [
        | inl valid ↦
            let e' : ok (chosen k) ≡ ok (chosen c) = rw (text, valid) at e in
            let e'' : k ≡ c = cc in
            subst (IsConsidered env s r x) e''
              (record { same = refl; bound = found; turned_on = on; config = valid })
        | inr invalid ↦
            let no : err (problem 400 "invalid_channel") ≡ ok (chosen c) =
              rw (text, invalid) at e in
            cc
      ]
    ]
  where
    k : Candidate
    k = record {
      channel = x;
      binding = b;
      cfg = channel_config env s r m x;
      key = "";
      signature = "";
    }

consider-IsConsidered :
    (env : Environment) (s : PolicySettings) (r : Request) (m : ℤ) (x : StoredChannel)
    (c : Candidate)
    → consider env s r m x ≡ ok (chosen c)
    → IsConsidered env s r x c
unfolding consider
consider-IsConsidered env s r m x c e = elim (Option-cases (find_binding x.id (bindings s))) [
  | inl nothing ↦ let no : ok passed_over ≡ ok (chosen c) = rw (nothing, consider) at e in cc
  | inr (b, found) ↦
      elim (Bool-cases (b.enabled && x.enabled && x.credential_active && is_asked r.only x.id)) [
        | inl on ↦
            consider_bound-IsConsidered env s r m x b c found on (rw (found, consider, on) at e)
        | inr off ↦ let no : ok passed_over ≡ ok (chosen c) = rw (found, consider, off) at e in cc
      ]
]

-- A candidate with its credential.
record IsEquipped (env : Environment) (resources : Resources) (budget : Bool) (x c : Candidate)
    : Type 0 where
  channel : c.channel ≡ x.channel
  binding : c.binding ≡ x.binding
  cfg : c.cfg ≡ x.cfg
  credential :
      (k : RouteCredential) × (resources.credential x.channel.credential_id ≡ some k)
      × (is_bound_to env k x.cfg ≡ true)
      × (c.key ≡ k.key)
  priced : (budget && not (has_price env resources x)) ≡ false

equip-IsEquipped :
    (env : Environment) (resources : Resources) (budget : Bool) (x c : Candidate)
    → equip env resources budget x ≡ ok (chosen c)
    → IsEquipped env resources budget x c
unfolding equip
equip-IsEquipped env resources budget x c e =
    elim (Option-cases (resources.credential x.channel.credential_id)) [
      | inl nothing ↦ let no : ok passed_over ≡ ok (chosen c) = rw (nothing, equip) at e in cc
      | inr (k, found) ↦ elim (Bool-cases (is_bound_to env k x.cfg)) [
        | inl same ↦ elim (Bool-cases (budget && not (has_price env resources x))) [
          | inl unpriced ↦
              let no : ok left_out ≡ ok (chosen c) = rw (found, equip, same, unpriced) at e in cc
          | inr priced ↦
              let e' : ok (chosen (with_key k)) ≡ ok (chosen c) =
                rw (found, equip, same, priced) at e in
              let e'' : with_key k ≡ c = cc in
              subst (IsEquipped env resources budget x) e'' (record {
                channel = refl;
                binding = refl;
                cfg = refl;
                credential = (k, found, same, refl);
                priced = priced;
              })
        ]
        | inr other ↦
            let no : err (problem 400 "credential_provider_mismatch") ≡ ok (chosen c) =
              rw (found, equip, other) at e in
            cc
      ]
    ]
  where
    with_key : RouteCredential → Candidate
    with_key k = record x {
      key = k.key;
      signature = env.digest (x.channel.cache_epoch ∷ k.key ∷ []);
    }

-- What the loop of attempts may rely on, for each of its candidates.
pub record IsReady (env : Environment) (s : PolicySettings) (r : Request) (resources : Resources)
    (budget : Bool) (c : Candidate) : Type 0 where
  pub bound : find_binding c.channel.id (bindings s) ≡ some c.binding
  pub turned_on :
      (c.binding.enabled
        && c.channel.enabled
        && c.channel.credential_active
        && is_asked r.only c.channel.id)
      ≡ true
  pub range : IsInRange c.binding
  pub config : validate_config env.parse env.origins env.one c.cfg ≡ true
  pub credential :
      (k : RouteCredential) × (resources.credential c.channel.credential_id ≡ some k)
      × (is_bound_to env k c.cfg ≡ true)
      × (c.key ≡ k.key)
  pub priced : (budget && not (has_price env resources c)) ≡ false

considered-IsReady :
    (env : Environment) (s : PolicySettings) (r : Request) (resources : Resources) (budget : Bool)
    (x c : Candidate)
    → bindings_valid [] (bindings s) ≡ true
    → IsConsidered env s r x.channel x
    → IsEquipped env resources budget x c
    → IsReady env s r resources budget c
considered-IsReady env s r resources budget x c v p q = record {
  bound = rw (q.channel, q.binding) p.bound;
  turned_on = rw (q.channel, q.binding) p.turned_on;
  range = rw q.binding (find_binding-IsInRange [] x.channel.id (bindings s) x.binding v p.bound);
  config = rw q.cfg p.config;
  credential = rw (q.channel, q.cfg) q.credential;
  priced = rw (q.channel, q.cfg) q.priced;
}

ready_inj : (x y : Start) → ok (ready x) ≡ ok (ready y) → x ≡ y
ready_inj x y e = cc

unless_keyword-ready :
    (s : PolicySettings) (input : List ℕ) (routes : Result Prepared) (start : Start)
    → unless_keyword s input routes ≡ ok (ready start)
    → routes ≡ ok (ready start)
unfolding unless_keyword
unless_keyword-ready s input routes start e = ground arith

refuse_if-ok : (b : Bool) (e : Failure) (u : Unit {0}) → refuse_if (not b) e ≡ ok u → b ≡ true
refuse_if-ok true e u h = refl
refuse_if-ok false e u h = cc

choose_candidates-IsReady :
    (env : Environment) (s : PolicySettings) (channels : List StoredChannel) (r : Request)
    (a : Answers) (start : Start)
    → bindings_valid [] (bindings s) ≡ true
    → Distinct (λ c. c.id) channels
    → choose_candidates env s channels r a ≡ ok (ready start)
    → (resources : Resources) × (budget : Bool) × (a.resources ≡ ok resources)
      × (has_budget r.kind a ≡ ok budget)
      × All (IsReady env s r resources budget) start.candidates
      × Distinct id_of start.candidates
      × (start.limit ≡ (if str_eq r.only "" then pos_part s.max_attempts else 1))
unfolding choose_candidates
choose_candidates-IsReady env s channels r a start v d e =
    let (slot, _, e1) = >>=-eq-ok (take_slot r.kind a) _ e in
    let (budget, has, e2) = >>=-eq-ok (has_budget r.kind a) _ e1 in
    let (m, _, e3) = >>=-eq-ok a.reason_max_chars _ e2 in
    let (considered, first, e4) = >>=-eq-ok (choose_all (consider env s r m) channels) _ e3 in
    let (resources, answered, e5) = >>=-eq-ok a.resources _ e4 in
    let (equipped, second, e6) =
      >>=-eq-ok (choose_all (equip env resources budget) considered.0) _ e5 in
    let kept : All (λ c. IsConsidered env s r c.channel c) considered.0 =
      choose_all-All (consider env s r m) (λ x. Unit {0}) _
        (λ x c u h.
          let q = consider-IsConsidered env s r m x c h in
          subst (λ y. IsConsidered env s r y c) (sym q.same) q)
        channels considered (nothing_asked channels) first in
    let same = ready_inj _ start e6 in
    let same_candidates : equipped.0 ≡ start.candidates = ap (λ x. x.candidates) same in
    (
      resources,
      budget,
      answered,
      has,
      subst (All (IsReady env s r resources budget)) same_candidates (
          choose_all-All (equip env resources budget) (λ x. IsConsidered env s r x.channel x) _
            (λ x c p h.
              considered-IsReady env s r resources budget x c v p
                (equip-IsEquipped env resources budget x c h))
            considered.0 equipped kept second),
      subst (Distinct id_of) same_candidates (
          choose_all-Distinct (equip env resources budget) id_of
            (λ x c h. ap (λ k. k.id) (equip-IsEquipped env resources budget x c h).channel)
            considered.0 equipped
            (choose_all-Distinct (consider env s r m) (λ c. c.id)
              (λ x c h. ap (λ k. k.id) (consider-IsConsidered env s r m x c h).same) channels
              considered d first)
            second),
      sym (ap (λ x. x.limit) same),
    )
  where
    nothing_asked : (cs : List StoredChannel) → All (λ x. Unit {0}) cs
    nothing_asked [] = tt
    nothing_asked (c ∷ cs) = (tt, nothing_asked cs)

-- If the channels of the database have distinct ids and the loop of attempts begins: each of its
-- candidates is an enabled channel with an active credential that an enabled binding of the policy
-- names, and the one asked for, if any; its priority and weight are in the range that the routing
-- relies on; its configuration passes validation; its key is that of an active credential that is
-- bound to the same provider, interface and address; under a budget it has a price and no image; no
-- two candidates share a channel; and the limit is 1 to 5 attempts.
pub prepare-IsReady :
    (env : Environment) (s : PolicySettings) (channels : List StoredChannel) (r : Request)
    (a : Answers) (start : Start)
    → Distinct (λ c. c.id) channels
    → prepare env s channels r a ≡ ok (ready start)
    → (resources : Resources) × (budget : Bool) × (a.resources ≡ ok resources)
      × (has_budget r.kind a ≡ ok budget)
      × All (IsReady env s r resources budget) start.candidates
      × DistinctIds (map routed start.candidates)
      × (1 ≤ start.limit)
      × (start.limit ≤ 5)
unfolding prepare
prepare-IsReady env s channels r a start d e =
    let (u, valid, e1) =
      >>=-eq-ok
        (refuse_if (not (validate_settings env.parse env.origins env.one s))
          (problem 400 "invalid_config"))
        _ e in
    let (w, _, e2) = >>=-eq-ok (check_only r.only (bindings s)) _ e1 in
    let e3 = unless_keyword-ready s r.input _ start e2 in
    let v = validate_settings-bindings env s (refuse_if-ok _ _ u valid) in
    let (resources, budget, answered, has, all, distinct, limit) =
      choose_candidates-IsReady env s channels r a start v.0 d e3 in
    (
      resources,
      budget,
      answered,
      has,
      all,
      Distinct-map start.candidates distinct,
      limit_low _ _ _ limit v.1,
      limit_high _ _ _ limit v.2,
    )
  where
    limit_low : (b : Bool) (m n : ℕ) → n ≡ (if b then m else 1) → 1 ≤ m → 1 ≤ n
    limit_low b m n h l = ground arith

    limit_high : (b : Bool) (m n : ℕ) → n ≡ (if b then m else 1) → m ≤ 5 → n ≤ 5
    limit_high b m n h l = ground arith
