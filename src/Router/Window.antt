-- ===== src/Router/Window.antt =====
-- The rolling minute of a channel: `rpmUsed` of internal/audit/channel_rpm.go with the calls that
-- internal/audit/router.go inserts.
use deepseek_moderation_api.Prelude.{
  ℕ, ◌+◌, ◌≤◌, ◌<◌, ◌≡◌, refl, ◌∙◌, List, [], ◌∷◌, arith, ltb, leb, if◌then◌else◌, length, inl, inr,
  Bool-cases,
}
use deepseek_moderation_api.Clock.{minute}
use deepseek_moderation_api.Router.State.{expire}
use deepseek_moderation_api.Router.Release.{insert_call}

-- What happens to the list `rpmCalls` of a channel.
pub data Event : Type 0 where
  sent : ℕ → Event
  looked : ℕ → Event

abbrev pub play : List Event → List ℕ → List ℕ
play [] calls = calls
play (sent t ∷ es) calls = insert_call t (play es calls)
play (looked now ∷ es) calls = expire now (play es calls)

-- The calls of the last minute before `now`.
abbrev pub count_within : ℕ → List ℕ → ℕ
count_within now [] = 0
count_within now (t ∷ ts) = (if ltb now (t + minute) then 1 else 0) + count_within now ts

abbrev pub sent_times : List Event → List ℕ
sent_times [] = []
sent_times (sent t ∷ es) = t ∷ sent_times es
sent_times (looked now ∷ es) = sent_times es

abbrev pub IsLookedBefore : ℕ → List Event → Type 0
IsLookedBefore now [] = Unit {0}
IsLookedBefore now (sent t ∷ es) = IsLookedBefore now es
IsLookedBefore now (looked t ∷ es) = (t ≤ now) × IsLookedBefore now es

-- No call of the list is earlier than `t`.
abbrev AllFrom : ℕ → List ℕ → Type 0
AllFrom t [] = Unit {0}
AllFrom t (x ∷ xs) = (t ≤ x) × AllFrom t xs

abbrev IsSorted : List ℕ → Type 0
IsSorted [] = Unit {0}
IsSorted (x ∷ xs) = AllFrom x xs × IsSorted xs

AllFrom-le : (s t : ℕ) (xs : List ℕ) → s ≤ t → AllFrom t xs → AllFrom s xs
AllFrom-le s t [] h a = tt
AllFrom-le s t (x ∷ xs) h a = (omega (arith, h, a.0), AllFrom-le s t xs h a.1)

insert_call-AllFrom : (s t : ℕ) (xs : List ℕ) → s ≤ t → AllFrom s xs → AllFrom s (insert_call t xs)
unfolding insert_call
insert_call-AllFrom s t [] h a = (h, tt)
insert_call-AllFrom s t (x ∷ xs) h a = elim (Bool-cases (leb t x)) [
  | inl front ↦ rw front (h, a)
  | inr behind ↦ rw behind (a.0, insert_call-AllFrom s t xs h a.1)
]

insert_call-IsSorted : (t : ℕ) (xs : List ℕ) → IsSorted xs → IsSorted (insert_call t xs)
unfolding insert_call
insert_call-IsSorted t [] s = (tt, tt)
insert_call-IsSorted t (x ∷ xs) s = elim (Bool-cases (leb t x)) [
  | inl front ↦ let le : t ≤ x = ground arith in rw front ((le, AllFrom-le t x xs le s.0), s)
  | inr behind ↦
      rw behind (insert_call-AllFrom x t xs (ground arith) s.0, insert_call-IsSorted t xs s.1)
]

insert_call-count_within :
    (now t : ℕ) (xs : List ℕ) → count_within now (insert_call t xs) ≡ count_within now (t ∷ xs)
unfolding insert_call
insert_call-count_within now t [] = refl
insert_call-count_within now t (x ∷ xs) = ground (arith, insert_call-count_within now t xs)

expire-IsSorted : (now : ℕ) (xs : List ℕ) → IsSorted xs → IsSorted (expire now xs)
unfolding expire
expire-IsSorted now [] s = tt
expire-IsSorted now (x ∷ xs) s = elim (Bool-cases (leb (x + minute) now)) [
  | inl gone ↦ rw gone (expire-IsSorted now xs s.1)
  | inr kept ↦ rw kept s
]

expire-count_within :
    (earlier now : ℕ) (xs : List ℕ)
    → earlier ≤ now
    → count_within now (expire earlier xs) ≡ count_within now xs
unfolding expire
expire-count_within earlier now [] h = refl
expire-count_within earlier now (x ∷ xs) h = ground (arith, expire-count_within earlier now xs h)

-- All calls are within the minute if the first one is.
AllFrom-count_within :
    (now t : ℕ) (xs : List ℕ) → now < t + minute → AllFrom t xs → count_within now xs ≡ length xs
AllFrom-count_within now t [] h a = refl
AllFrom-count_within now t (x ∷ xs) h a = ground (arith, AllFrom-count_within now t xs h a.1, a.0)

length-expire : (now : ℕ) (xs : List ℕ) → IsSorted xs → length (expire now xs) ≡ count_within now xs
unfolding expire
length-expire now [] s = refl
length-expire now (x ∷ xs) s = elim (Bool-cases (leb (x + minute) now)) [
  | inl gone ↦ ground (arith, length-expire now xs s.1)
  | inr kept ↦ ground (arith, AllFrom-count_within now x xs (ground arith) s.0)
]

play-IsSorted : (es : List Event) → IsSorted (play es [])
play-IsSorted [] = tt
play-IsSorted (sent t ∷ es) = insert_call-IsSorted t (play es []) (play-IsSorted es)
play-IsSorted (looked now ∷ es) = expire-IsSorted now (play es []) (play-IsSorted es)

play-count_within :
    (now : ℕ) (es : List Event)
    → IsLookedBefore now es
    → count_within now (play es []) ≡ count_within now (sent_times es)
play-count_within now [] h = refl
play-count_within now (sent t ∷ es) h =
    ground (arith, insert_call-count_within now t (play es []), play-count_within now es h)
play-count_within now (looked earlier ∷ es) h =
    expire-count_within earlier now (play es []) h.0 ∙ play-count_within now es h.1

-- In whatever order calls end and the list is trimmed in between, what is left at `now` counts
-- exactly the sent calls that began in the minute before `now`. No trimming was later than `now`.
pub expire-count :
    (now : ℕ) (es : List Event)
    → IsLookedBefore now es
    → length (expire now (play es [])) ≡ count_within now (sent_times es)
expire-count now es h =
    length-expire now (play es []) (play-IsSorted es) ∙ play-count_within now es h
