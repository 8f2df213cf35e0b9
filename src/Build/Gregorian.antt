-- ===== src/Build/Gregorian.antt =====
-- The formula of `civil_from_days` in build.rs against the Gregorian calendar.
use weverywhere.Prelude.{
  ℕ, zero, suc, ◌+◌, ◌≤◌, ◌<◌, ◌≡◌, ◌≢◌, ◌∙◌, refl, sym, ap, ltb→lt, leb→le, Bool, true, false, not,
  ◌&&◌, arith, ltb, leb, ◌==◌, if◌then◌else◌, Bool-cases, inl, inr,
}
use weverywhere.Prelude.Int.{ℤ, pos, negsuc, ◌+ℤ◌, scale, int_laws}
use weverywhere.Build.Civil.{
  Date, date_of, day_of, month_of, civil_from_days, is_leap, days_in_month, next_day, era,
  day_of_era, epoch,
}
use weverywhere.Build.Eras.{
  table, entry, leap, len, start-suc, DayOf, year_of_era_lem, day_of_year_lem, locate, leap_lem,
  day_of_era-lt, era-suc, day_of_era-suc, era_last, day_of_era_last,
}

-- What `next_day` does to a month and a day, in a year from March on that holds a leap day or not.
follows : Bool → ℕ → Bool
follows holds doy =
    if ltb (day_of doy) (days_in_month holds (month_of doy))
    then (month_of (doy + 1) == month_of doy) && (day_of (doy + 1) == day_of doy + 1)
    else (day_of (doy + 1) == 1)
      && (if ltb (month_of doy) 12
          then (month_of (doy + 1) == month_of doy + 1) && not (month_of doy == 2)
          else month_of (doy + 1) == 1)

short_table : table (follows false) 364 ≡ true
unfolding table follows day_of month_of days_in_month
short_table = refl

long_table : table (follows true) 365 ≡ true
unfolding table follows day_of month_of days_in_month
long_table = refl

follows_lem : (yoe doy : ℕ) → doy + 1 < len yoe → follows (leap yoe) doy ≡ true
follows_lem yoe doy h = elim (Bool-cases (leap yoe)) [
  | inl long ↦ rw long (entry (follows true) 365 doy (ground arith) long_table)
  | inr short ↦ rw short (entry (follows false) 364 doy (ground arith) short_table)
]

days_in_month_any : (a b : Bool) (m : ℕ) → m ≢ 2 → days_in_month a m ≡ days_in_month b m
unfolding days_in_month
days_in_month_any a b m h = ground arith

pub day_bounds : (doy : ℕ) → doy < 366 → (1 ≤ month_of doy) × (month_of doy ≤ 12) × (1 ≤ day_of doy)
unfolding month_of day_of
day_bounds doy h = ground arith

-- The month's length in the date that holds a day of the year `yoe` from March on.
length_lem :
    (e : ℤ) (yoe doy : ℕ)
    → yoe < 400
    → days_in_month (is_leap (date_of e yoe doy).year) (month_of doy)
      ≡ days_in_month (leap yoe) (month_of doy)
length_lem e yoe doy h = elim (Bool-cases (leb (month_of doy) 2)) [
  | inl early ↦ rw (early, leap_lem e yoe h)
  | inr late ↦ days_in_month_any _ _ (month_of doy) (ground arith)
]

next_in_year :
    (e : ℤ) (yoe doy : ℕ)
    → yoe < 400
    → doy + 1 < len yoe
    → next_day (date_of e yoe doy) ≡ date_of e yoe (doy + 1)
unfolding next_day follows
next_in_year e yoe doy h k =
    rw (length_lem e yoe doy h) (ground (arith, follows_lem yoe doy k, day_bounds doy))

pos-suc : (y : ℕ) (s : ℤ) → pos (y + 1) +ℤ s ≡ pos y +ℤ s +ℤ pos 1
pos-suc y s = omega int_laws

next_era : (e : ℤ) → scale (e +ℤ pos 1) 400 ≡ pos 400 +ℤ scale e 400
unfolding scale ◌+ℤ◌
next_era (pos n) = ground arith
next_era (negsuc zero) = ground arith
next_era (negsuc (suc n)) = ground arith

-- The last day of February and the first of March.
last_day :
    (yoe doy : ℕ)
    → doy + 1 ≡ len yoe
    → (month_of doy ≡ 2) × (day_of doy ≡ days_in_month (leap yoe) 2)
unfolding month_of day_of days_in_month
last_day yoe doy h = ground arith

march : (month_of 0 ≡ 3) × (day_of 0 ≡ 1)
unfolding month_of day_of
march = (refl, refl)

year_end :
    (e : ℤ) (yoe doy : ℕ)
    → yoe < 400
    → doy + 1 ≡ len yoe
    → next_day (date_of e yoe doy)
      ≡ record { year = pos yoe +ℤ scale e 400 +ℤ pos 1; month = 3; day = 1 }
unfolding next_day
year_end e yoe doy h k = rw (length_lem e yoe doy h) (ground (arith, last_day yoe doy k))

first_of_march :
    (e : ℤ) (yoe : ℕ)
    → date_of e yoe 0 ≡ record { year = pos yoe +ℤ scale e 400; month = 3; day = 1 }
unfolding month_of day_of
first_of_march e yoe = refl

civil_lem :
    (z w : ℤ) (yoe doy : ℕ)
    → z +ℤ pos 719468 ≡ w
    → DayOf (day_of_era w) yoe doy
    → civil_from_days z ≡ date_of (era w) yoe doy
unfolding civil_from_days
civil_lem z w yoe doy e v = rw e (rw (year_of_era_lem v, day_of_year_lem v))

-- The day after a day of an era that is not its last.
next_within :
    (e : ℤ) (doe yoe doy : ℕ)
    → DayOf doe yoe doy
    → doe < 146096
    → (y : ℕ) × (d : ℕ) × DayOf (doe + 1) y d × (next_day (date_of e yoe doy) ≡ date_of e y d)
next_within e doe yoe doy v h = elim (Bool-cases (ltb (doy + 1) (len yoe))) [
  | inl within ↦ (
    yoe,
    doy + 1,
    record { in_era = v.in_era; in_year = ground arith; counted = omega (arith, v.counted) },
    next_in_year e yoe doy v.in_era (ground arith),
  )
  | inr ended ↦ (
    yoe + 1,
    0,
    record {
      in_era = ground (arith, v.counted);
      in_year = ground arith;
      counted = ground (arith, start-suc yoe);
    },
    year_end e yoe doy v.in_era (ground arith) ∙ rw (first_of_march, pos-suc),
  )
]

swap_one : (z : ℤ) → z +ℤ pos 1 +ℤ pos 719468 ≡ z +ℤ pos 719468 +ℤ pos 1
swap_one z = omega int_laws

year_carry : (s : ℤ) → pos 399 +ℤ s +ℤ pos 1 ≡ pos 0 +ℤ (pos 400 +ℤ s)
year_carry s = omega int_laws

tomorrow :
    (w : ℤ) (yoe doy : ℕ)
    → DayOf (day_of_era w) yoe doy
    → (y : ℕ) × (d : ℕ) × DayOf (day_of_era (w +ℤ pos 1)) y d
      × (next_day (date_of (era w) yoe doy) ≡ date_of (era (w +ℤ pos 1)) y d)
tomorrow w yoe doy v = elim (Bool-cases (ltb (day_of_era w) 146096)) [
  | inl within ↦
      rw (era-suc w (ltb→lt _ _ within), day_of_era-suc w (ltb→lt _ _ within))
        (next_within (era w) (day_of_era w) yoe doy v (ltb→lt _ _ within))
  | inr ended ↦
      let last : day_of_era w ≡ 146096 = ground (arith, day_of_era-lt w) in
      let y : yoe ≡ 399 = ground (arith, v.counted) in
      rw (era_last w last, day_of_era_last w last)
        (
          0,
          0,
          record { in_era = omega arith; in_year = omega arith; counted = refl },
          year_end (era w) yoe doy v.in_era (ground (arith, v.counted))
              ∙ rw (y, first_of_march, next_era, year_carry),
        )
]

-- The formula is the Gregorian calendar: day 0 is 1 January 1970, and the date of the day after any
-- day, before 1970 or later, is the date after its date.
pub civil_from_days-next_day :
    (z : ℤ)
    → (civil_from_days (z +ℤ pos 1) ≡ next_day (civil_from_days z))
      × (civil_from_days (pos 0) ≡ record { year = pos 1970; month = 1; day = 1 })
civil_from_days-next_day z =
    let w = z +ℤ pos 719468 in
    let (yoe, doy, v) = locate (day_of_era w) (day_of_era-lt w) in
    let (y, d, v', e) = tomorrow w yoe doy v in
    (
      civil_lem (z +ℤ pos 1) (w +ℤ pos 1) y d (swap_one z) v'
          ∙ sym (ap next_day (civil_lem z w yoe doy refl v) ∙ e),
      epoch,
    )

-- A date that the calendar has.
pub record IsDate (t : Date) : Type 0 where
  pub month_pos : 1 ≤ t.month
  pub month-le : t.month ≤ 12
  pub day_pos : 1 ≤ t.day
  pub day-le : t.day ≤ days_in_month (is_leap t.year) t.month

fits_short : table (λ d. leb (day_of d) (days_in_month false (month_of d))) 365 ≡ true
unfolding table day_of month_of days_in_month
fits_short = refl

fits_long : table (λ d. leb (day_of d) (days_in_month true (month_of d))) 366 ≡ true
unfolding table day_of month_of days_in_month
fits_long = refl

day-le-length : (yoe doy : ℕ) → doy < len yoe → day_of doy ≤ days_in_month (leap yoe) (month_of doy)
day-le-length yoe doy h = elim (Bool-cases (leap yoe)) [
  | inl long ↦ rw long (leb→le _ _ (entry _ 366 doy (ground arith) fits_long))
  | inr short ↦ rw short (leb→le _ _ (entry _ 365 doy (ground arith) fits_short))
]

date_of-IsDate : (e : ℤ) (yoe doy : ℕ) → yoe < 400 → doy < len yoe → IsDate (date_of e yoe doy)
date_of-IsDate e yoe doy h k =
    let (lower, upper, first) = day_bounds doy (ground arith) in
    record {
      month_pos = lower;
      month-le = upper;
      day_pos = first;
      day-le = rw (length_lem e yoe doy h) (day-le-length yoe doy k);
    }

pub civil_from_days-IsDate : (z : ℤ) → IsDate (civil_from_days z)
civil_from_days-IsDate z =
    let w = z +ℤ pos 719468 in
    let (yoe, doy, v) = locate (day_of_era w) (day_of_era-lt w) in
    rw (civil_lem z w yoe doy refl v) (date_of-IsDate (era w) yoe doy v.in_era v.in_year)
