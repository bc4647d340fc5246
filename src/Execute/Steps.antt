-- ===== src/Execute/Steps.antt =====
-- What a round of `executeRoute` (internal/audit/router.go) leaves, by the three ways in which it
-- changes the execution: the call is refunded, or made, and the last error is noted.
use deepseek_moderation_api.Prelude.{
  Bool, true, false, not, Option, some, if◌then◌else◌, inl, inr, Bool-cases, str_eq, Failure,
  Result, ok, err,
}
use deepseek_moderation_api.Router.Tier.{PolicySettings}
use deepseek_moderation_api.Router.Acquire.{Ticket}
use deepseek_moderation_api.Execute.{
  Query, active, inactive, query_failed, Credential, same_key, other_key, credential_failed, Round,
  Execution, Next, resume, stop, error_code, reservation_error, route_preparation_timeout,
  retryable, final_answer,
}
use deepseek_moderation_api.Execute.Answer.{after_call, decide, infer}
use deepseek_moderation_api.Execute.Rounds.{
  refund, give_up, check_reservation, check_credential, check_active, unless_expired, follow,
}

-- A predicate on the execution that a round leaves.
abbrev pub NextOf : {A : Type 0} → (Execution → Type 0) → Next A → Type 0
NextOf P (resume x) = P x
NextOf P (stop x result) = P x

-- The checks before a call end in one of four ways.
module _ {A : Type 0} (settings : PolicySettings) (r : Round A) (t : Ticket) (x : Execution)
    (R : Next A → Type 0) (again : R (resume (refund settings r t x)))
    (noted : R (resume (record (refund settings r t x) { last_error = route_preparation_timeout })))
    (refused : (e : Failure) → R (stop (refund settings r t x) (err e)))
    (called : R (infer settings r t x)) where
  give_up-elim :
      (expired : Bool) (otherwise : Next A)
      → R otherwise
      → R (give_up expired otherwise (refund settings r t x))
  unfolding give_up
  give_up-elim true otherwise o = noted
  give_up-elim false otherwise o = o

  check_reservation-elim :
      (reservation : Result (Unit {0})) → R (check_reservation settings r t x reservation)
  unfolding check_reservation
  check_reservation-elim (err e) = refused (reservation_error r.preparation_expired e)
  check_reservation-elim (ok u) = called

  missing_key :
      (e : Failure)
      → R (
          if not (str_eq (error_code e) "credential_unavailable")
          then stop (refund settings r t x) (err e)
          else resume (refund settings r t x))
  missing_key e = elim (Bool-cases (str_eq (error_code e) "credential_unavailable")) [
    | inl missing ↦ rw missing again
    | inr other ↦ rw other (refused e)
  ]

  check_credential-elim : (c : Credential) → R (check_credential settings r t x c)
  unfolding check_credential
  check_credential-elim same_key = check_reservation-elim r.reservation
  check_credential-elim other_key = give_up-elim r.preparation_expired _ again
  check_credential-elim (credential_failed e) = give_up-elim r.preparation_expired _ (missing_key e)

  pub check_active-elim : (q : Query) → R (check_active settings r t x q)
  unfolding check_active
  check_active-elim active = check_credential-elim r.credential
  check_active-elim inactive = again
  check_active-elim (query_failed e) = give_up-elim r.preparation_expired _ (refused e)

decide-NextOf :
    {A : Type 0} (P : Execution → Type 0) (settled : Bool) (answer : Result A) (x : Execution)
    → ((e : Failure) → P (record x { last_error = e }))
    → P x
    → NextOf P (decide settled answer x)
unfolding decide
decide-NextOf P false answer x noted h = h
decide-NextOf P true (ok a) x noted h = h
decide-NextOf P true (err e) x noted h = elim (Bool-cases (retryable e)) [
  | inl again ↦ rw again (noted e)
  | inr final ↦ rw final (noted e)
]

pub check_active-NextOf :
    {A : Type 0} (settings : PolicySettings) (P : Execution → Type 0)
    → ((x : Execution) (e : Failure) → P x → P (record x { last_error = e }))
    → (r : Round A) (t : Ticket) (x : Execution) → P (refund settings r t x)
    → P (after_call settings r t x)
    → (q : Query) → NextOf P (check_active settings r t x q)
check_active-NextOf settings P noted r t x refunded called q =
    check_active-elim settings r t x (NextOf P) refunded (noted _ _ refunded) (λ e. refunded)
      (unfold infer in
        decide-NextOf P r.settled (final_answer r) (after_call settings r t x)
          (λ e. noted (after_call settings r t x) e called) called)
      q

-- The predicate where the loop goes on.
abbrev pub ResumeOf : {A : Type 0} → (Execution → Type 0) → Next A → Type 0
ResumeOf P (resume x) = P x
ResumeOf P (stop x result) = Unit {0}

pub NextOf-ResumeOf :
    {A : Type 0} (P : Execution → Type 0) (next : Next A) → NextOf P next → ResumeOf P next
NextOf-ResumeOf P (resume x) p = p
NextOf-ResumeOf P (stop x result) p = tt

module _ {A : Type 0} (P : Execution → Type 0) where
  pub unless_expired-NextOf :
      (expired : Bool) (x : Execution) (next : Next A)
      → P x
      → NextOf P next
      → NextOf P (unless_expired expired x next)
  unless_expired-NextOf true x next p n = p
  unless_expired-NextOf false x next p n = n

  pub unless_expired-ResumeOf :
      (expired : Bool) (x : Execution) (next : Next A)
      → ResumeOf P next
      → ResumeOf P (unless_expired expired x next)
  unless_expired-ResumeOf true x next n = tt
  unless_expired-ResumeOf false x next n = n

  -- Induction over the loop, one round at a time.
  module _ (Q : Option (Execution × Result A) → Type 0)
      (rest : Execution → Option (Execution × Result A))
      (onward : (x : Execution) → P x → Q (rest x)) where
    pub follow-NextOf :
        ((x : Execution) (result : Result A) → P x → Q (some (x, result)))
        → (next : Next A) → NextOf P next
        → Q (follow rest next)
    follow-NextOf ended (resume x) p = onward x p
    follow-NextOf ended (stop x result) p = ended x result p

    pub follow-ResumeOf :
        ((x : Execution) (result : Result A) → Q (some (x, result)))
        → (next : Next A) → ResumeOf P next
        → Q (follow rest next)
    follow-ResumeOf ended (resume x) p = onward x p
    follow-ResumeOf ended (stop x result) p = ended x result
