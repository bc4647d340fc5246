-- ===== src/Execute/Accounts.antt =====
-- What the attempts of a request add up to (internal/audit/router.go, `executeRoute`).
use deepseek_moderation_api.Prelude.{
  ℕ, ◌+◌, ◌≤◌, ◌<◌, ◌≡◌, true, false, List, [], ◌∷◌, ◌++◌, arith, if◌then◌else◌, inl, inr,
  Bool-cases, All, All-map, All-snoc, String, str_eq, eq_iff,
}
use deepseek_moderation_api.Router.Tier.{PolicySettings}
use deepseek_moderation_api.Router.Acquire.{Ticket, is_used}
use deepseek_moderation_api.Execute.{Round, Execution, Attempt, final_answer}
use deepseek_moderation_api.Execute.Answer.{after_call, code_of}
use deepseek_moderation_api.Execute.Rounds.{refund}

abbrev pub sent_count : List Attempt → ℕ
sent_count [] = 0
sent_count (a ∷ ats) = (if a.sent then 1 else 0) + sent_count ats

abbrev pub DistinctChannels : List Attempt → Type 0
DistinctChannels [] = Unit {0}
DistinctChannels (a ∷ ats) =
    All (λ b. str_eq a.channel_id b.channel_id ≡ false) ats × DistinctChannels ats

-- `attempt_count` is the number of attempts that were sent, and within the limit; no channel was
-- attempted twice, and each attempted one is used.
pub record IsAccounted (limit : ℕ) (x : Execution) : Type 0 where
  pub counted : x.attempt_count ≡ sent_count x.attempts
  pub within : x.attempt_count ≤ limit
  pub distinct : DistinctChannels x.attempts
  pub tried : All (λ a. is_used x.used a.channel_id ≡ true) x.attempts

DistinctChannels-snoc :
    (xs : List Attempt) (b : Attempt)
    → DistinctChannels xs
    → All (λ a. str_eq a.channel_id b.channel_id ≡ false) xs
    → DistinctChannels (xs ++ b ∷ [])
DistinctChannels-snoc [] b d a = (tt, tt)
DistinctChannels-snoc (x ∷ xs) b d a = (All-snoc _ xs b d.0 a.0, DistinctChannels-snoc xs b d.1 a.1)

sent_count-snoc :
    (xs : List Attempt) (b : Attempt)
    → sent_count (xs ++ b ∷ []) ≡ sent_count xs + (if b.sent then 1 else 0)
sent_count-snoc [] b = omega arith
sent_count-snoc (x ∷ xs) b = omega (arith, sent_count-snoc xs b)

-- A channel that was used is none that was not.
pub used_ne :
    (used : List String) (i j : String)
    → is_used used i ≡ true
    → is_used used j ≡ false
    → str_eq i j ≡ false
used_ne used i j h k = elim (Bool-cases (str_eq i j)) [
  | inl same ↦ let e : i ≡ j = (eq_iff i j).0 same in absurd (clash (rw e at h))
  | inr other ↦ other
]
  where
    clash : is_used used j ≡ true → ⊥
    clash h = cc

pub use-IsAccounted :
    (limit : ℕ) (x : Execution) (id : String)
    → IsAccounted limit x
    → IsAccounted limit (record x { used = id ∷ x.used })
use-IsAccounted limit x id a = record {
  counted = a.counted;
  within = a.within;
  distinct = a.distinct;
  tried = All-map _ _ x.attempts (λ b h. ground (arith, h)) a.tried;
}

module _ {A : Type 0} (settings : PolicySettings) (limit : ℕ) (r : Round A) (t : Ticket) where
  pub refund-IsAccounted :
      (x : Execution) → IsAccounted limit x → IsAccounted limit (refund settings r t x)
  unfolding refund
  refund-IsAccounted x a = record {
    counted = a.counted;
    within = a.within;
    distinct = a.distinct;
    tried = a.tried;
  }

  pub after_call-IsAccounted :
      (x : Execution)
      → IsAccounted limit x
      → x.attempt_count < limit
      → All (λ a. str_eq a.channel_id t.candidate.channel.id ≡ false) x.attempts
      → is_used x.used t.candidate.channel.id ≡ true
      → IsAccounted limit (after_call settings r t x)
  unfolding after_call
  after_call-IsAccounted x a left new used = record {
    counted = ground (arith, a.counted, sent_count-snoc x.attempts attempt);
    within = ground arith;
    distinct = DistinctChannels-snoc x.attempts attempt a.distinct new;
    tried = All-snoc _ x.attempts attempt a.tried used;
  }
    where
      attempt : Attempt
      attempt = record {
        channel_id = t.candidate.channel.id;
        sent = r.usage.attempted;
        usage = r.usage;
        error_code = code_of (final_answer r);
      }
