-- ===== src/Clock.antt =====
-- Times and durations are nanoseconds. A time counts from the Unix epoch, and 0 stands for Go's
-- zero time, which `IsZero` tests and which is `Before` every other.
use deepseek_moderation_api.Prelude.{
  ℕ, ◌+◌, ◌-◌, ◌*◌, ◌/◌, ◌%◌, Bool, ◌&&◌, ◌||◌, ltb, leb, ◌==◌, if◌then◌else◌,
}

abbrev pub millisecond : ℕ
millisecond = 1_000_000

abbrev pub second : ℕ
second = 1_000_000_000

abbrev pub minute : ℕ
minute = 60 * second

abbrev pub is_zero : ℕ → Bool
is_zero t = t == 0

-- `a.After(b)` and `a.Before(b)`.
abbrev pub after : ℕ → ℕ → Bool
after a b = ltb b a

abbrev pub before : ℕ → ℕ → Bool
before a b = ltb a b

-- Seconds since the epoch on a clock of Asia/Shanghai, eight hours ahead of UTC. (The zone has had
-- this one offset since 1991.)
abbrev pub shanghai_seconds : ℕ → ℕ
shanghai_seconds t = t / second + 28800

-- Sunday is 0; 1 January 1970 was a Thursday.
unfoldable pub weekday : ℕ → ℕ
weekday t = (shanghai_seconds t / 86400 + 4) % 7

unfoldable pub hour : ℕ → ℕ
hour t = shanghai_seconds t % 86400 / 3600

-- internal/audit/pricing.go.
pub data Period : Type 0 where
  peak off_peak : Period

unfoldable pub price_period : ℕ → Period
unfolding weekday hour
price_period t =
    let week = weekday t in
    let h = hour t in
    if leb 1 week && leb week 5 && (leb 9 h && ltb h 12 || leb 14 h && ltb h 18)
    then peak
    else off_peak

-- The date on that clock, as days since the epoch.
unfoldable pub shanghai_day : ℕ → ℕ
shanghai_day t = shanghai_seconds t / 86400

-- Months since the year 0 of a date: the civil calendar, counted from March in eras of 400 years.
unfoldable pub month_index : ℕ → ℕ
month_index day =
    let z = day + 719468 in
    let era = z / 146097 in
    let doe = z % 146097 in
    let yoe = (doe - doe / 1460 + doe / 36524 - doe / 146096) / 365 in
    let doy = doe - (365 * yoe + yoe / 4 - yoe / 100) in
    12 * (yoe + era * 400) + (5 * doy + 2) / 153 + 2
