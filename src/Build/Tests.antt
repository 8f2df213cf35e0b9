-- ===== src/Build/Tests.antt =====
-- The calendar and the versions at one day and one hour.
use weverywhere.Prelude.{◌*◌, ◌≤◌, ◌<◌, ◌≡◌, refl}
use weverywhere.Prelude.Utf8.{codes}
use weverywhere.Prelude.Int.{pos, negsuc, ◌+ℤ◌}
use weverywhere.Prelude.{decimal, some}
use weverywhere.Build.Civil.{
  civil_from_days, next_day, era, day_of_era, year_of_era, day_of_year, day_of, month_of,
}
use weverywhere.Prelude.Int.{scale}
use weverywhere.Build.Gregorian.{civil_from_days-next_day}
use weverywhere.Build.Version.{version_of, month_length, compute_version, version_of-bounds}

civil_from_days-next_day_example :
    (civil_from_days (negsuc 0 +ℤ pos 1) ≡ next_day (civil_from_days (negsuc 0)))
    × (civil_from_days (pos 0) ≡ record { year = pos 1970; month = 1; day = 1 })
civil_from_days-next_day_example = civil_from_days-next_day (negsuc 0)

version_of-bounds_example :
    (1 ≤ (version_of 1772323199).month)
    × ((version_of 1772323199).month ≤ 12)
    × ((version_of 1772323199).hours < 24 * month_length (version_of 1772323199))
version_of-bounds_example = version_of-bounds 1772323199

-- The last second of February 2026.
version_written : compute_version (some 1772323199) ≡ codes "2026.02.671"
unfolding compute_version civil_from_days era day_of_era year_of_era day_of_year day_of month_of
    ◌+ℤ◌ scale decimal
version_written = refl

day_before : civil_from_days (negsuc 0) ≡ record { year = pos 1969; month = 12; day = 31 }
unfolding civil_from_days era day_of_era year_of_era day_of_year day_of month_of ◌+ℤ◌ scale
day_before = refl

leap_day : civil_from_days (pos 11016) ≡ record { year = pos 2000; month = 2; day = 29 }
unfolding civil_from_days era day_of_era year_of_era day_of_year day_of month_of ◌+ℤ◌ scale
leap_day = refl

before_zero : civil_from_days (negsuc 719528) ≡ record { year = negsuc 0; month = 12; day = 31 }
unfolding civil_from_days era day_of_era year_of_era day_of_year day_of month_of ◌+ℤ◌ scale
before_zero = refl
