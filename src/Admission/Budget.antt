-- ===== src/Admission/Budget.antt =====
-- The requests in flight stay within the configured number and bytes (internal/audit/runtime.go).
use deepseek_moderation_api.Prelude.{
  ◌∙◌, ap, ℕ, ◌+◌, ◌≤◌, ◌≡◌, refl, List, [], ◌∷◌, ◌++◌, arith, Result, ok, err, length,
  length-append, sum, sum-append, true, false, ltb, inl, inr, Bool-cases, ◌||◌, leb,
}
use deepseek_moderation_api.Prelude.Int.{ℤ, pos, negsuc}
use deepseek_moderation_api.Admission.{
  RuntimeConfig, RequestAdmission, byte_budget, acquire, release, validate, counted_length,
  is_too_large,
}

-- The admission with the bytes of each request in flight.
pub record Flight : Type 0 where
  pub admission : RequestAdmission
  pub held : List ℕ

abbrev pub empty_flight : Flight
empty_flight = record { admission = record { active = 0; bytes = 0 }; held = [] }

abbrev with_bytes : Result ℕ → List ℕ → List ℕ
with_bytes (ok n) held = n ∷ held
with_bytes (err e) held = held

abbrev pub after_acquire : Flight → RequestAdmission × Result ℕ → Flight
after_acquire f r = record { admission = r.0; held = with_bytes r.1 f.held }

-- Each request gives its bytes back once (sync.Once).
pub data Step (c : RuntimeConfig) : Flight → Flight → Type 0 where
  arrive :
      (f : Flight) (size : ℤ) (limit : ℕ)
      → Step c f (after_acquire f (acquire c f.admission size limit))
  leave :
      (a : RequestAdmission) (xs : List ℕ) (n : ℕ) (ys : List ℕ)
      → Step c
          (record { admission = a; held = xs ++ n ∷ ys })
          (record { admission = release n a; held = xs ++ ys })

pub data Reachable (c : RuntimeConfig) : Flight → Type 0 where
  start : Reachable c empty_flight
  next : {f f' : Flight} → Reachable c f → Step c f f' → Reachable c f'

pub record IsBudgeted (c : RuntimeConfig) (f : Flight) : Type 0 where
  pub active : f.admission.active ≡ length f.held
  pub bytes : f.admission.bytes ≡ sum f.held
  pub few : length f.held ≤ c.request_concurrency
  pub small : sum f.held ≤ byte_budget c

acquire-IsBudgeted :
    (c : RuntimeConfig) (f : Flight) (size : ℤ) (limit : ℕ)
    → IsBudgeted c f
    → IsBudgeted c (after_acquire f (acquire c f.admission size limit))
unfolding acquire
acquire-IsBudgeted c f size limit b = elim (Bool-cases (is_too_large size limit)) [
  | inl large ↦ rw large b
  | inr fits ↦
      elim (Bool-cases (
        leb c.request_concurrency f.admission.active
        || ltb (byte_budget c) (f.admission.bytes + counted_length size limit))) [
          | inl full ↦ rw (fits, full) b
          | inr room ↦
              let n = counted_length size limit in
              rw (fits, room)
                (record {
                  active = omega (arith, b.active);
                  bytes = omega (arith, b.bytes);
                  few = ground (arith, b.active);
                  small = ground (arith, b.bytes);
                })
        ]
]

release-IsBudgeted :
    (c : RuntimeConfig) (a : RequestAdmission) (xs : List ℕ) (n : ℕ) (ys : List ℕ)
    → IsBudgeted c (record { admission = a; held = xs ++ n ∷ ys })
    → IsBudgeted c (record { admission = release n a; held = xs ++ ys })
unfolding release
release-IsBudgeted c a xs n ys b =
    let before = length-append xs (n ∷ ys) in
    let after = length-append xs ys in
    let before_sum = sum-append xs (n ∷ ys) in
    let after_sum = sum-append xs ys in
    record {
      active = omega (arith, b.active, before, after);
      bytes = omega (arith, b.bytes, before_sum, after_sum);
      few = omega (arith, b.few, before, after);
      small = omega (arith, b.small, before_sum, after_sum);
    }

-- However requests come and go, the counters are the number and the total bytes of the requests in
-- flight, and neither is ever above its configured limit.
pub Reachable-IsBudgeted : (c : RuntimeConfig) (f : Flight) → Reachable c f → IsBudgeted c f
Reachable-IsBudgeted c f start = record {
  active = refl;
  bytes = refl;
  few = omega arith;
  small = omega arith;
}
Reachable-IsBudgeted c f (next r (arrive g size limit)) =
    acquire-IsBudgeted c g size limit (Reachable-IsBudgeted c g r)
Reachable-IsBudgeted c f (next r (leave a xs n ys)) =
    release-IsBudgeted c a xs n ys (Reachable-IsBudgeted c _ r)

validate-limits :
    (c : RuntimeConfig)
    → validate c ≡ true
    → (1 ≤ c.request_concurrency) × (32 ≤ c.request_body_mib)
unfolding validate
validate-limits c v = ground arith

counted_length-le :
    (size : ℤ) (limit : ℕ) → is_too_large size limit ≡ false → counted_length size limit ≤ limit
counted_length-le (pos n) limit h = ground arith
counted_length-le (negsuc n) limit h = omega arith

-- Under a valid configuration no bytes are lost for good: once every request has left, a request
-- whose limit is at most 32 MiB is admitted again, unless it declares more than its limit.
pub acquire-idle :
    (c : RuntimeConfig) (f : Flight) (size : ℤ) (limit : ℕ)
    → Reachable c f
    → validate c ≡ true
    → f.held ≡ []
    → is_too_large size limit ≡ false
    → limit ≤ 33_554_432
    → (acquire c f.admission size limit).1 ≡ ok (counted_length size limit)
unfolding acquire
acquire-idle c f size limit r v empty fits small =
    let b = Reachable-IsBudgeted c f r in
    let idle : f.admission.active ≡ 0 = b.active ∙ ap length empty in
    let none_held : f.admission.bytes ≡ 0 = b.bytes ∙ ap sum empty in
    let (few, wide) = validate-limits c v in
    let le = counted_length-le size limit fits in
    let room : (leb c.request_concurrency f.admission.active
          || ltb (byte_budget c) (f.admission.bytes + counted_length size limit))
        ≡ false =
      ground arith in
    rw (fits, room) refl
