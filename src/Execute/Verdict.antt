-- ===== src/Execute/Verdict.antt =====
-- Where the verdict of a request comes from (internal/audit/router.go, `executeRoute`).
use mathlib.Core.Path.{subst}
use deepseek_moderation_api.Prelude.{
  ℕ, zero, suc, ◌<◌, ◌≡◌, refl, Bool, true, false, List, [], ◌∷◌, ◌++◌, Option, none, some, arith,
  leb, inl, inr, Bool-cases, All, All-map, All-snoc, String, str_eq, str_eq_self, Failure, problem,
  Result, ok, err, ◌&&◌, if◌then◌else◌,
}
use deepseek_moderation_api.Router.State.{RouteCandidate, Routes}
use deepseek_moderation_api.Router.Tier.{PolicySettings, RouteProgress}
use deepseek_moderation_api.Router.Acquire.{Ticket, is_used}
use deepseek_moderation_api.Router.Release.{CallError}
use deepseek_moderation_api.Router.Members.{acquire_route-All}
use deepseek_moderation_api.Execute.{
  Round, Execution, Next, resume, stop, Attempt, retryable, final_answer, error_code,
}
use deepseek_moderation_api.Execute.Answer.{after_call, decide, infer, code_of}
use deepseek_moderation_api.Execute.Steps.{check_active-elim}
use deepseek_moderation_api.Execute.Rounds.{
  refund, unless_expired, with_ticket, acquired, start_round, round, follow, execute,
}
use deepseek_moderation_api.Execute.Accounts.{
  IsAccounted, used_ne, use-IsAccounted, refund-IsAccounted, after_call-IsAccounted,
}

abbrev pub has_failed : Attempt → Bool
has_failed a = elim a.error_code [ none ↦ false | some c ↦ true ]

abbrev pub AllFailed : List Attempt → Type 0
AllFailed ats = All (λ a. has_failed a ≡ true) ats

-- The round ended with this verdict: the provider gave it, within the time of the request and with its
-- cost recorded, and the round added one attempt, without an error, to those before.
abbrev pub IsAnswered : {A : Type 0} → Round A → List Attempt → A → List Attempt → Type 0
IsAnswered r before a after =
    (last : Attempt) × (after ≡ before ++ last ∷ [])
    × (has_failed last ≡ false)
    × (last.sent ≡ r.usage.attempted)
    × (last.usage ≡ r.usage)
    × (r.answer ≡ ok a)
    × (r.context_error ≡ none)
    × (r.settled ≡ true)

abbrev pub AnswerOf : {A : Type 0} → Round A → List Attempt → Result A → List Attempt → Type 0
AnswerOf r before (err e) after = Unit {0}
AnswerOf r before (ok a) after = IsAnswered r before a after

-- An execution that goes on has met failures only.
record IsGoingOn (limit : ℕ) (x : Execution) : Type 0 where
  accounted : IsAccounted limit x
  failed : AllFailed x.attempts

-- A verdict is the answer of the round that ended the loop, which began after failures only.
abbrev pub VerdictOf :
    {A : Type 0}
    → List RouteCandidate
    → PolicySettings
    → (ℕ → Round A)
    → Execution
    → Result A
    → Type 0
VerdictOf cs settings rounds y (err e) = Unit {0}
VerdictOf cs settings rounds y (ok a) =
    (n : ℕ) × (x : Execution) × (round cs settings (rounds n) x ≡ stop y (ok a))
    × AllFailed x.attempts
    × IsAnswered (rounds n) x.attempts a y.attempts

-- What a request comes to.
pub record IsConcluded {A : Type 0} (cs : List RouteCandidate) (settings : PolicySettings)
    (rounds : ℕ → Round A) (limit : ℕ) (y : Execution) (result : Result A) : Type 0 where
  pub accounted : IsAccounted limit y
  pub verdict : VerdictOf cs settings rounds y result

-- What a round comes to that began after the attempts `before`.
abbrev RoundOf : {A : Type 0} → ℕ → Round A → List Attempt → Next A → Type 0
RoundOf limit r before (resume x) = IsGoingOn limit x
RoundOf limit r before (stop x result) = IsAccounted limit x × AnswerOf r before result x.attempts

note-IsAccounted :
    (limit : ℕ) (x : Execution) (e : Failure)
    → IsAccounted limit x
    → IsAccounted limit (record x { last_error = e })
note-IsAccounted limit x e a = record {
  counted = a.counted;
  within = a.within;
  distinct = a.distinct;
  tried = a.tried;
}

-- The attempts with the last one, by how the call ended.
abbrev EndedBy : {A : Type 0} → Round A → List Attempt → Result A → List Attempt → Type 0
EndedBy r before (err e) after = AllFailed after
EndedBy r before (ok a) after = r.settled ≡ true → IsAnswered r before a after

decide-RoundOf :
    {A : Type 0} (limit : ℕ) (r : Round A) (before : List Attempt) (settled : Bool)
    (answer : Result A) (x : Execution)
    → r.settled ≡ settled
    → IsAccounted limit x
    → EndedBy r before answer x.attempts
    → RoundOf limit r before (decide settled answer x)
unfolding decide
decide-RoundOf limit r before false answer x s a v = (a, tt)
decide-RoundOf limit r before true (ok b) x s a v = (a, v s)
decide-RoundOf limit r before true (err e) x s a v =
    let noted = note-IsAccounted limit x e a in
    elim (Bool-cases (retryable e)) [
      | inl again ↦ rw again (record { accounted = noted; failed = v })
      | inr final ↦ rw final (noted, tt)
    ]

-- A call without an error is the provider's, within the time of the request.
final_answer-ok :
    {A : Type 0} (r : Round A) (a : A)
    → final_answer r ≡ ok a
    → (r.answer ≡ ok a) × (r.context_error ≡ none)
unfolding final_answer
final_answer-ok {A = A} r a e = answered r.context_error r.answer e
  where
    answered :
        (late : Option CallError) (answer : Result A)
        → (elim late [
          | some e ↦ err (problem 504 "audit_timeout")
          | none ↦ elim answer [
            | ok a ↦ ok a
            | err e ↦ err (
                if r.failover_expired && str_eq (error_code e) "upstream_timeout"
                then problem 504 "upstream_timeout"
                else e)
          ]
        ])
          ≡ ok a
        → (answer ≡ ok a) × (late ≡ none)
    answered (some c) answer e = cc
    answered none (ok b) e = (e, refl)
    answered none (err c) e = cc

-- One more attempt with the answer's code.
attempt-EndedBy :
    {A : Type 0} (r : Round A) (answer : Result A) (before : List Attempt) (b : Attempt)
    → final_answer r ≡ answer
    → AllFailed before
    → b.error_code ≡ code_of answer
    → b.sent ≡ r.usage.attempted
    → b.usage ≡ r.usage
    → EndedBy r before answer (before ++ b ∷ [])
attempt-EndedBy r (ok a) before b f failed e sent used =
    let (given, early) = final_answer-ok r a f in
    λ settled. (b, refl, rw e refl, sent, used, given, early, settled)
attempt-EndedBy r (err c) before b f failed e sent used = All-snoc _ before b failed (rw e refl)

infer-RoundOf :
    {A : Type 0} (settings : PolicySettings) (limit : ℕ) (r : Round A) (t : Ticket) (x : Execution)
    → IsAccounted limit (after_call settings r t x)
    → AllFailed x.attempts
    → RoundOf limit r x.attempts (infer settings r t x)
unfolding infer
infer-RoundOf settings limit r t x a f =
    decide-RoundOf limit r x.attempts r.settled (final_answer r) (after_call settings r t x) refl a
      (unfold after_call in attempt-EndedBy r (final_answer r) x.attempts _ refl f refl refl refl)

with_ticket-RoundOf :
    {A : Type 0} (settings : PolicySettings) (limit : ℕ) (r : Round A) (x : Execution)
    (o : Result (Option Ticket))
    → IsGoingOn limit x
    → x.attempt_count < limit
    → ((t : Ticket) → o ≡ ok (some t) → is_used x.used t.candidate.channel.id ≡ false)
    → RoundOf limit r x.attempts (with_ticket settings r x o)
unfolding with_ticket
with_ticket-RoundOf settings limit r x (err e) g left new = (g.accounted, tt)
with_ticket-RoundOf settings limit r x (ok none) g left new = (g.accounted, tt)
with_ticket-RoundOf settings limit r x (ok (some t)) g left new =
    let id = t.candidate.channel.id in
    let y = record x { used = id ∷ x.used } in
    let a = use-IsAccounted limit x id g.accounted in
    let refunded = refund-IsAccounted settings limit r t y a in
    let fresh =
      All-map _ _ x.attempts (λ b h. used_ne x.used b.channel_id id h (new t refl))
        g.accounted.tried in
    let called = after_call-IsAccounted settings limit r t y a left fresh (rw (str_eq_self id)) in
    check_active-elim settings r t y (RoundOf limit r x.attempts)
      (record { accounted = refunded; failed = unfold refund in g.failed })
      (record {
        accounted = note-IsAccounted limit _ _ refunded;
        failed = unfold refund in g.failed;
      })
      (λ e. (refunded, tt)) (infer-RoundOf settings limit r t y called g.failed) r.query

unless_expired-RoundOf :
    {A : Type 0} (limit : ℕ) (r : Round A) (before : List Attempt) (expired : Bool) (x : Execution)
    (next : Next A)
    → IsAccounted limit x
    → RoundOf limit r before next
    → RoundOf limit r before (unless_expired expired x next)
unless_expired-RoundOf limit r before true x next a n = (a, tt)
unless_expired-RoundOf limit r before false x next a n = n

-- Neither the channels' states nor the progress count.
move-IsGoingOn :
    (limit : ℕ) (x : Execution) (routes : Routes) (p : RouteProgress)
    → IsGoingOn limit x
    → IsGoingOn limit (record x { routes = routes; progress = p })
move-IsGoingOn limit x routes p g =
    let a = g.accounted in
    record {
      accounted = record {
        counted = a.counted;
        within = a.within;
        distinct = a.distinct;
        tried = a.tried;
      };
      failed = g.failed;
    }

unused_anyway :
    (used : List String) (cs : List RouteCandidate)
    → All (λ c. is_used used c.channel.id ≡ false → is_used used c.channel.id ≡ false) cs
unused_anyway used [] = tt
unused_anyway used (c ∷ cs) = (λ h. h, unused_anyway used cs)

round-RoundOf :
    {A : Type 0} (settings : PolicySettings) (cs : List RouteCandidate) (limit : ℕ) (r : Round A)
    (x : Execution)
    → IsGoingOn limit x
    → x.attempt_count < limit
    → RoundOf limit r x.attempts (round cs settings r x)
unfolding round start_round acquired
round-RoundOf settings cs limit r x g left =
    unless_expired-RoundOf limit r x.attempts r.expired _ _
      (move-IsGoingOn limit x (r.others x.routes) x.progress g).accounted
      (with_ticket-RoundOf settings limit r _ _ (move-IsGoingOn limit x _ _ g) left (λ t e.
        acquire_route-All (λ c. is_used x.used c.channel.id ≡ false) r.slots r.slot_capacity
          (r.others x.routes) cs settings x.used r.now r.draw (some x.progress) t
          (unused_anyway x.used cs) e))

abbrev LoopOf :
    {A : Type 0}
    → List RouteCandidate
    → PolicySettings
    → (ℕ → Round A)
    → ℕ
    → Option (Execution × Result A)
    → Type 0
LoopOf cs settings rounds limit none = Unit {0}
LoopOf cs settings rounds limit (some e) = IsConcluded cs settings rounds limit e.0 e.1

-- The rounds from the second on are rounds too.
later-VerdictOf :
    {A : Type 0} (cs : List RouteCandidate) (settings : PolicySettings) (rounds : ℕ → Round A)
    (y : Execution) (result : Result A)
    → VerdictOf cs settings (λ n. rounds (suc n)) y result
    → VerdictOf cs settings rounds y result
later-VerdictOf cs settings rounds y (err e) v = tt
later-VerdictOf cs settings rounds y (ok a) (n, x, same, failed, answered) =
    (suc n, x, same, failed, answered)

later-LoopOf :
    {A : Type 0} (cs : List RouteCandidate) (settings : PolicySettings) (rounds : ℕ → Round A)
    (limit : ℕ) (o : Option (Execution × Result A))
    → LoopOf cs settings (λ n. rounds (suc n)) limit o
    → LoopOf cs settings rounds limit o
later-LoopOf cs settings rounds limit none c = tt
later-LoopOf cs settings rounds limit (some e) c = record {
  accounted = c.accounted;
  verdict = later-VerdictOf cs settings rounds e.0 e.1 c.verdict;
}

stop-VerdictOf :
    {A : Type 0} (cs : List RouteCandidate) (settings : PolicySettings) (rounds : ℕ → Round A)
    (x y : Execution) (result : Result A)
    → round cs settings (rounds 0) x ≡ stop y result
    → AllFailed x.attempts
    → AnswerOf (rounds 0) x.attempts result y.attempts
    → VerdictOf cs settings rounds y result
stop-VerdictOf cs settings rounds x y (err e) same f a = tt
stop-VerdictOf cs settings rounds x y (ok b) same f a = (0, x, same, f, a)

follow-LoopOf :
    {A : Type 0} (cs : List RouteCandidate) (settings : PolicySettings) (rounds : ℕ → Round A)
    (limit : ℕ) (rest : Execution → Option (Execution × Result A)) (x : Execution) (next : Next A)
    → round cs settings (rounds 0) x ≡ next
    → AllFailed x.attempts
    → ((z : Execution) → IsGoingOn limit z → LoopOf cs settings rounds limit (rest z))
    → RoundOf limit (rounds 0) x.attempts next
    → LoopOf cs settings rounds limit (follow rest next)
follow-LoopOf cs settings rounds limit rest x (resume z) same failed f g = f z g
follow-LoopOf cs settings rounds limit rest x (stop y result) same failed f (a, v) = record {
  accounted = a;
  verdict = stop-VerdictOf cs settings rounds x y result same failed v;
}

execute-LoopOf :
    {A : Type 0} (fuel limit : ℕ) (cs : List RouteCandidate) (settings : PolicySettings)
    (rounds : ℕ → Round A) (x : Execution)
    → IsGoingOn limit x
    → LoopOf cs settings rounds limit (execute fuel limit cs settings rounds x)
unfolding execute
execute-LoopOf zero limit cs settings rounds x g = tt
execute-LoopOf (suc fuel) limit cs settings rounds x g =
    elim (Bool-cases (leb limit x.attempt_count)) [
      | inl spent ↦ rw spent (record { accounted = g.accounted; verdict = tt })
      | inr left ↦ rw left (
          follow-LoopOf cs settings rounds limit _ x (round cs settings (rounds 0) x) refl g.failed
            (λ z h.
              later-LoopOf cs settings rounds limit _
                (execute-LoopOf fuel limit cs settings (λ n. rounds (suc n)) z h))
            (round-RoundOf settings cs limit (rounds 0) x g (ground arith)))
    ]

-- However the database, the vault, the provider and the billing answer: a request sends at most
-- `limit` attempts and counts each of them, and it attempts no channel twice. A verdict is what the
-- provider answered in the round that ended the loop, within the time of the request and with its
-- cost recorded; that round added the last attempt, which has no error and the usage of the answer,
-- and all attempts before it failed. The request starts with no attempts.
pub execute-IsConcluded :
    {A : Type 0} (fuel limit : ℕ) (cs : List RouteCandidate) (settings : PolicySettings)
    (rounds : ℕ → Round A) (x y : Execution) (result : Result A)
    → x.attempts ≡ []
    → x.attempt_count ≡ 0
    → execute fuel limit cs settings rounds x ≡ some (y, result)
    → IsConcluded cs settings rounds limit y result
execute-IsConcluded fuel limit cs settings rounds x y result none_yet zero_yet e =
    subst (LoopOf cs settings rounds limit) e (execute-LoopOf fuel limit cs settings rounds x start)
  where
    start : IsGoingOn limit x
    start = record {
      accounted = record {
        counted = rw (none_yet, zero_yet) refl;
        within = omega (arith, zero_yet);
        distinct = rw none_yet tt;
        tried = rw none_yet tt;
      };
      failed = rw none_yet tt;
    }
