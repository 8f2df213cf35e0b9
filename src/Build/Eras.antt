-- ===== src/Build/Eras.antt =====
-- The years of an era, from March to February, and the formula of build.rs that finds them.
use weverywhere.Prelude.{
  ℕ, zero, suc, ◌+◌, ◌-◌, ◌*◌, ◌/◌, ◌%◌, ◌≤◌, ◌<◌, ◌≡◌, refl, Bool, true, false, not, ◌&&◌, ◌||◌,
  arith, ltb, ◌==◌, if◌then◌else◌, Bool-cases, inl, inr,
}
use weverywhere.Prelude.Int.{ℤ, pos, negsuc, ◌+ℤ◌, scale}
use weverywhere.Build.Civil.{year_of_era, day_of_year, is_leap, era, day_of_era}

-- A table is checked by evaluation.
module _ (test : ℕ → Bool) where
  unfoldable pub table : ℕ → Bool
  table zero = true
  table (suc size) = if test size then table size else false

  pub entry : (size day : ℕ) → day < size → table size ≡ true → test day ≡ true
  unfolding table
  entry zero day inside full = elim inside [ ]
  entry (suc size) day inside full = ground (arith, entry size day)

-- The years of an era run from March to February: where they start, and how long they are.
abbrev pub start : ℕ → ℕ
start y = 365 * y + y / 4 - y / 100

abbrev pub leap : ℕ → Bool
leap y = ((y + 1) % 4 == 0) && (not ((y + 1) % 100 == 0) || ((y + 1) % 400 == 0))

abbrev pub len : ℕ → ℕ
len y = if leap y then 366 else 365

year_of_era_mono : (a b : ℕ) → a ≤ b → b < 146097 → year_of_era a ≤ year_of_era b
unfolding year_of_era
year_of_era_mono a b h k = omega arith

year_table :
    table (λ y. (year_of_era (start y) == y) && (year_of_era (start y + len y - 1) == y)) 400 ≡ true
unfolding table year_of_era
year_table = refl

pub start-suc : (y : ℕ) → y < 399 → start (y + 1) ≡ start y + len y
start-suc y h = ground arith

pub start_last : (y d : ℕ) → y < 400 → d < len y → start y + d < 146097
start_last y d h k = ground arith

pub record DayOf (doe yoe doy : ℕ) : Type 0 where
  pub in_era : yoe < 400
  pub in_year : doy < len yoe
  pub counted : doe ≡ start yoe + doy

pub year_of_era_lem : {doe yoe doy : ℕ} → DayOf doe yoe doy → year_of_era doe ≡ yoe
year_of_era_lem {doe} {yoe} {doy} v =
    let row = entry _ 400 yoe v.in_era year_table in
    let lower =
      year_of_era_mono (start yoe) doe (omega (arith, v.counted))
        (ground (arith, start_last yoe doy)) in
    let upper = year_of_era_mono doe (start yoe + len yoe - 1) (ground arith) (ground arith) in
    ground arith

pub day_of_year_lem : {doe yoe doy : ℕ} → DayOf doe yoe doy → day_of_year doe yoe ≡ doy
unfolding day_of_year
day_of_year_lem v = omega (arith, v.counted)

-- Every day of an era is a day of one of its years.
pub locate : (doe : ℕ) → doe < 146097 → (yoe : ℕ) × (doy : ℕ) × DayOf doe yoe doy
locate zero h = (0, 0, record { in_era = omega arith; in_year = omega arith; counted = refl })
locate (suc doe) h =
    let (yoe, doy, v) = locate doe (omega arith) in
    elim (Bool-cases (ltb (doy + 1) (len yoe))) [
      | inl within ↦ (
        yoe,
        doy + 1,
        record { in_era = v.in_era; in_year = ground arith; counted = omega (arith, v.counted) },
      )
      | inr ended ↦ (
        yoe + 1,
        0,
        record {
          in_era = ground (arith, start_last yoe doy);
          in_year = ground arith;
          counted = ground (arith, start-suc yoe);
        },
      )
    ]

pub leap_lem : (e : ℤ) (y : ℕ) → y < 400 → is_leap (pos y +ℤ scale e 400 +ℤ pos 1) ≡ leap y
unfolding is_leap ◌+ℤ◌ scale
leap_lem (pos n) y h = ground arith
leap_lem (negsuc n) y h = ground arith

pub day_of_era-lt : (z : ℤ) → day_of_era z < 146097
unfolding day_of_era
day_of_era-lt (pos n) = ground arith
day_of_era-lt (negsuc n) = ground arith

pub era-suc : (z : ℤ) → day_of_era z < 146096 → era (z +ℤ pos 1) ≡ era z
unfolding era day_of_era ◌+ℤ◌
era-suc (pos n) h = ground arith
era-suc (negsuc zero) h = ground arith
era-suc (negsuc (suc n)) h = ground arith

pub day_of_era-suc : (z : ℤ) → day_of_era z < 146096 → day_of_era (z +ℤ pos 1) ≡ day_of_era z + 1
unfolding day_of_era ◌+ℤ◌
day_of_era-suc (pos n) h = ground arith
day_of_era-suc (negsuc zero) h = ground arith
day_of_era-suc (negsuc (suc n)) h = ground arith

pub era_last : (z : ℤ) → day_of_era z ≡ 146096 → era (z +ℤ pos 1) ≡ era z +ℤ pos 1
unfolding era day_of_era ◌+ℤ◌
era_last (pos n) h = ground arith
era_last (negsuc zero) h = ground arith
era_last (negsuc (suc n)) h = ground arith

pub day_of_era_last : (z : ℤ) → day_of_era z ≡ 146096 → day_of_era (z +ℤ pos 1) ≡ 0
unfolding day_of_era ◌+ℤ◌
day_of_era_last (pos n) h = ground arith
day_of_era_last (negsuc zero) h = ground arith
day_of_era_last (negsuc (suc n)) h = ground arith
