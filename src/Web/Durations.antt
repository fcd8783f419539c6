-- ===== src/Web/Durations.antt =====
-- What `formatDuration` of apps/web/lib/format.ts says, against the seconds that it is given.
use logistics_order_fulfillm.Prelude.{ℕ, ◌+◌, ◌*◌, ◌/◌, ◌≤◌, ◌<◌, ltb, arith, Bool-cases, inl, inr}
use logistics_order_fulfillm.Web.Format.{
  Duration, minutes_seconds, hours_minutes, days_hours, duration_of,
}

-- The seconds that the text stands for, and the length of its smaller unit.
abbrev pub seconds_of : Duration → ℕ
seconds_of (minutes_seconds m s) = m * 60 + s
seconds_of (hours_minutes h m) = h * 3600 + m * 60
seconds_of (days_hours d h) = d * 86400 + h * 3600

abbrev pub unit_of : Duration → ℕ
unit_of (minutes_seconds m s) = 1
unit_of (hours_minutes h m) = 60
unit_of (days_hours d h) = 3600

-- The larger number is not zero, and the smaller one stays below its unit's range, as does the
-- larger but for the days.
abbrev pub IsWritten : Duration → Type 0
IsWritten (minutes_seconds m s) = (1 ≤ m) × (m < 60) × (s < 60)
IsWritten (hours_minutes h m) = (1 ≤ h) × (h < 24) × (m < 60)
IsWritten (days_hours d h) = (1 ≤ d) × (h < 24)

-- For a whole number of seconds of at least sixty, the text of a duration has a larger number that
-- is not zero, keeps its numbers within the ranges of their units, and stands for at most the
-- seconds given, by less than its smaller unit.
pub duration_of_bounds :
    (total : ℕ)
    → 60 ≤ total
    → let d = duration_of total in
      IsWritten d × (seconds_of d ≤ total) × (total < seconds_of d + unit_of d)
unfolding duration_of
duration_of_bounds total minute = elim (Bool-cases (ltb (total / 60) 60)) [
  | inl short ↦ rw short ((ground arith, ground arith, omega arith), omega arith, omega arith)
  | inr long ↦ elim (Bool-cases (ltb (total / 60 / 60) 24)) [
    | inl day ↦ rw (long, day) ((ground arith, ground arith, omega arith), omega arith, omega arith)
    | inr days ↦ rw (long, days) ((ground arith, omega arith), omega arith, omega arith)
  ]
]
