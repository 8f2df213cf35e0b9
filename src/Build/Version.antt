-- ===== src/Build/Version.antt =====
-- `compute_version` and the choice of the version in build.rs.
use weverywhere.Prelude.{
  ℕ, suc, ◌+◌, ◌-◌, ◌*◌, ◌/◌, ◌%◌, ◌≤◌, ◌<◌, ◌≡◌, Option, none, some, ◌∷◌, ◌++◌, Text, arith,
  Bool-cases, inl, inr, ltb→lt, sym, ltb, if◌then◌else◌, is_empty, decimal, trim,
}
use weverywhere.Prelude.Int.{ℤ, pos, negsuc, ◌+ℤ◌}
use weverywhere.Build.Civil.{Date, civil_from_days, is_leap, days_in_month, next_day}
use weverywhere.Build.Gregorian.{IsDate, civil_from_days-next_day, civil_from_days-IsDate}

-- `hours` counts from the start of the month.
pub record Version : Type 0 where
  pub year : ℤ
  pub month : ℕ
  pub hours : ℕ

-- The parts of the version, from the seconds since 1970.
unfoldable pub version_of : ℕ → Version
version_of secs =
    let t = civil_from_days (pos (secs / 86400)) in
    record { year = t.year; month = t.month; hours = (t.day - 1) * 24 + secs % 86400 / 3600 }

abbrev signed : ℤ → Text
signed (pos n) = decimal n
signed (negsuc n) = b'-' ∷ decimal (suc n)

abbrev two_digits : ℕ → Text
two_digits n = if ltb n 10 then b'0' ∷ decimal n else decimal n

unfoldable pub version_text : Version → Text
version_text v = signed v.year ++ (b'.' ∷ (two_digits v.month ++ (b'.' ∷ decimal v.hours)))

-- `compute_version`, where `none` is a clock before 1970.
unfoldable pub compute_version : Option ℕ → Text
unfolding version_text version_of
compute_version none = version_text (version_of 0)
compute_version (some secs) = version_text (version_of secs)

-- The version that `main` bakes in: that of the environment, unless it is blank.
unfoldable pub version : Option Text → Option ℕ → Text
unfolding compute_version
version none now = compute_version now
version (some v) now = let t = trim v in if is_empty t then compute_version now else t

unfoldable pub month_length : Version → ℕ
month_length v = days_in_month (is_leap v.year) v.month

-- The next hour of the calendar.
unfoldable pub next_version : Version → Version
unfolding month_length
next_version v =
    if ltb (v.hours + 1) (24 * month_length v)
    then record v { hours = v.hours + 1 }
    else if ltb v.month 12
    then record v { month = v.month + 1; hours = 0 }
    else record { year = v.year +ℤ pos 1; month = 1; hours = 0 }

-- The month of a version is one of the calendar's, and its hours are fewer than that month has.
pub version_of-bounds :
    (secs : ℕ)
    → (1 ≤ (version_of secs).month)
      × ((version_of secs).month ≤ 12)
      × ((version_of secs).hours < 24 * month_length (version_of secs))
unfolding version_of month_length
version_of-bounds secs =
    let t = civil_from_days (pos (secs / 86400)) in
    let v = civil_from_days-IsDate (pos (secs / 86400)) in
    (v.month_pos, v.month-le, omega (arith, v.day_pos, v.day-le))

next_date-version :
    (t : Date) (hour : ℕ)
    → IsDate t
    → hour < 24
    → next_version (record { year = t.year; month = t.month; hours = (t.day - 1) * 24 + hour }) ≡ (
        if ltb (hour + 1) 24
        then record { year = t.year; month = t.month; hours = (t.day - 1) * 24 + (hour + 1) }
        else record {
          year = (next_day t).year;
          month = (next_day t).month;
          hours = ((next_day t).day - 1) * 24 + 0;
        })
unfolding next_version next_day
next_date-version t hour v h = ground (arith, v.month_pos, v.month-le, v.day_pos, v.day-le)

same_day :
    (secs : ℕ)
    → secs % 86400 / 3600 + 1 < 24
    → ((secs + 3600) / 86400 ≡ secs / 86400)
      × ((secs + 3600) % 86400 / 3600 ≡ secs % 86400 / 3600 + 1)
same_day secs h = (omega arith, omega arith)

day_over :
    (secs : ℕ)
    → 24 ≤ secs % 86400 / 3600 + 1
    → ((secs + 3600) / 86400 ≡ secs / 86400 + 1) × ((secs + 3600) % 86400 / 3600 ≡ 0)
day_over secs h = (omega arith, omega arith)

next_pos : (n : ℕ) → pos (n + 1) ≡ pos n +ℤ pos 1
unfolding ◌+ℤ◌
next_pos n = ground arith

-- An hour later the version is the next one: the hours of the month count on to its end, and the next
-- month of the Gregorian calendar starts at 0.
pub version_of-next_version : (secs : ℕ) → version_of (secs + 3600) ≡ next_version (version_of secs)
unfolding version_of
version_of-next_version secs =
    let t = civil_from_days (pos (secs / 86400)) in
    let v = civil_from_days-IsDate (pos (secs / 86400)) in
    elim (Bool-cases (ltb (secs % 86400 / 3600 + 1) 24)) [
      | inl within ↦ rw (same_day secs (ltb→lt _ _ within)).0 (
          rw (same_day secs (ltb→lt _ _ within)).1
            (sym (rw within at (next_date-version t (secs % 86400 / 3600) v (omega arith)))))
      | inr over ↦
          let (days, hours) = day_over secs (ground arith) in
          rw days (
            rw (hours, next_pos, (civil_from_days-next_day (pos (secs / 86400))).0)
              (sym (rw over at (next_date-version t (secs % 86400 / 3600) v (omega arith)))))
    ]
