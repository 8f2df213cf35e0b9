-- ===== src/Build/Civil.antt =====
-- `civil_from_days` of build.rs, and the calendar that it computes.
use weverywhere.Prelude.{
  ◌≡◌, refl, ℕ, ◌+◌, ◌-◌, ◌*◌, ◌/◌, ◌%◌, Bool, not, ◌&&◌, ◌||◌, ltb, leb, ◌==◌, if◌then◌else◌,
}
use weverywhere.Prelude.Int.{ℤ, pos, negsuc, pos_part, neg_part, ◌+ℤ◌, ◌-ℤ◌, scale, quot}

pub record Date : Type 0 where
  pub year : ℤ
  pub month : ℕ
  pub day : ℕ

-- The 400 years from March on that hold a day, counted from the year 0, and the day within them.
unfoldable pub era : ℤ → ℤ
unfolding ◌-ℤ◌ quot
era (pos n) = quot (pos n) 146097
era (negsuc n) = quot (negsuc n -ℤ pos 146096) 146097

unfoldable pub day_of_era : ℤ → ℕ
unfolding era ◌-ℤ◌ scale
day_of_era z = pos_part (z -ℤ scale (era z) 146097)

unfoldable pub year_of_era : ℕ → ℕ
year_of_era doe = (doe - doe / 1460 + doe / 36524 - doe / 146096) / 365

unfoldable pub day_of_year : ℕ → ℕ → ℕ
day_of_year doe yoe = doe - (365 * yoe + yoe / 4 - yoe / 100)

unfoldable pub day_of : ℕ → ℕ
day_of doy = let mp = (5 * doy + 2) / 153 in doy - (153 * mp + 2) / 5 + 1

unfoldable pub month_of : ℕ → ℕ
month_of doy = let mp = (5 * doy + 2) / 153 in if ltb mp 10 then mp + 3 else mp - 9

abbrev pub date_of : ℤ → ℕ → ℕ → Date
date_of e yoe doy =
    let y = pos yoe +ℤ scale e 400 in
    record {
      year = if leb (month_of doy) 2 then y +ℤ pos 1 else y;
      month = month_of doy;
      day = day_of doy;
    }

unfoldable pub civil_from_days : ℤ → Date
civil_from_days z =
    let z' = z +ℤ pos 719468 in
    let doe = day_of_era z' in
    let yoe = year_of_era doe in date_of (era z') yoe (day_of_year doe yoe)

-- The Gregorian calendar: its leap rule, the lengths of its months, and the day after a day.
abbrev pub divides : ℕ → ℤ → Bool
divides k y = (pos_part y + neg_part y) % k == 0

unfoldable pub is_leap : ℤ → Bool
is_leap y = divides 4 y && (not (divides 100 y) || divides 400 y)

unfoldable pub days_in_month : Bool → ℕ → ℕ
days_in_month leap month =
    if month == 2
    then (if leap then 29 else 28)
    else if (month == 4) || (month == 6) || (month == 9) || (month == 11)
    then 30
    else 31

unfoldable pub next_day : Date → Date
unfolding is_leap days_in_month ◌+ℤ◌
next_day t =
    if ltb t.day (days_in_month (is_leap t.year) t.month)
    then record t { day = t.day + 1 }
    else if ltb t.month 12
    then record t { month = t.month + 1; day = 1 }
    else record { year = t.year +ℤ pos 1; month = 1; day = 1 }

pub epoch : civil_from_days (pos 0) ≡ record { year = pos 1970; month = 1; day = 1 }
unfolding civil_from_days era day_of_era year_of_era day_of_year day_of month_of ◌+ℤ◌ scale
epoch = refl
