-- ===== src/Web/Format.antt =====
-- apps/web/lib/format.ts
use logistics_order_fulfillm.Prelude.{
  ◌<>◌, ℕ, ◌/◌, ◌%◌, String, Bool, Option, none, some, ltb, decimal, not, if◌then◌else◌,
}

-- What the runtime does with numbers, dates and the locale `en-US`. A date is its milliseconds, and
-- `none` where it is invalid; `round` is `Math.round` of a number that is not below zero.
pub record Locale (N : Type 0) : Type 0 where
  pub parse_float : String → N
  pub is_nan : N → Bool
  pub is_finite : N → Bool
  pub number_text : N → String
  pub currency : N → String
  pub is_below_sixty : N → Bool
  pub to_fixed_one : N → String
  pub round : N → ℕ
  pub number : String → N
  pub times : N → ℕ → N
  pub parse_date : String → Option ℕ
  pub medium_date_short_time : ℕ → String
  pub month_day_hour : ℕ → String

-- What `formatDuration` says of a number of whole seconds that is not below sixty.
pub data Duration : Type 0 where
  minutes_seconds hours_minutes days_hours : ℕ → ℕ → Duration

unfoldable pub duration_of : ℕ → Duration
duration_of total_seconds =
    let m = total_seconds / 60 in
    let s = total_seconds % 60 in
    if ltb m 60
    then minutes_seconds m s
    else (let h = m / 60 in
        let rem_m = m % 60 in
        if ltb h 24 then hours_minutes h rem_m else days_hours (h / 24) (h % 24))

duration_text : Duration → String
duration_text (minutes_seconds m s) = decimal m <> "m " <> decimal s <> "s"
duration_text (hours_minutes h m) = decimal h <> "h " <> decimal m <> "m"
duration_text (days_hours d h) = decimal d <> "d " <> decimal h <> "h"

module _ {N : Type 0} (locale : Locale N) where
  -- `formatMoney` of a number
  unfoldable pub format_number : N → String
  format_number n = if locale.is_nan n then locale.number_text n else locale.currency n

  -- `formatMoney` of a text
  unfoldable pub format_money : String → String
  format_money value =
      let n = locale.parse_float value in if locale.is_nan n then value else locale.currency n

  abbrev date_or : String → (ℕ → String) → Option ℕ → String
  date_or iso show none = iso
  date_or iso show (some d) = show d

  unfoldable pub format_date_time : String → String
  format_date_time iso = date_or iso locale.medium_date_short_time (locale.parse_date iso)

  unfoldable pub format_hour_label : String → String
  format_hour_label iso = date_or iso locale.month_day_hour (locale.parse_date iso)

  unfoldable pub format_duration : N → String
  unfolding duration_of duration_text
  format_duration seconds =
      if not (locale.is_finite seconds)
      then "—"
      else if locale.is_below_sixty seconds
      then locale.to_fixed_one seconds <> "s"
      else duration_text (duration_of (locale.round seconds))
