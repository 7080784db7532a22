-- ===== src/Cli/Audit/Civil.antt =====
-- The date that `wall_utc` of apps/bolty-cli/src/audit.rs computes, against the calendar.
use bolty_rs.Prelude.{
  ℕ, zero, suc, ◌+◌, ◌-◌, ◌*◌, ◌/◌, ◌%◌, ◌≤◌, ◌<◌, ◌≡◌, refl, Bool, ◌||◌, ◌&&◌, not, ◌==◌, ltb, leb,
  arith, if◌then◌else◌,
}
use bolty_rs.Cli.Audit.{Wall, year_of_era, day_of_year, month_index, wall_utc}

-- The Gregorian calendar: leap years, the days before a year and before a month of it, and the days
-- from 1970-01-01 to a date.
abbrev pub is_leap : ℕ → Bool
is_leap y = y % 4 == 0 && (not (y % 100 == 0) || y % 400 == 0)

abbrev pub days_before_year : ℕ → ℕ
days_before_year y = let p = y - 1 in p * 365 + p / 4 - p / 100 + p / 400

abbrev pub days_in_month : ℕ → ℕ → ℕ
days_in_month y m =
    if m == 2
    then (if is_leap y then 29 else 28)
    else if m == 4 || m == 6 || m == 9 || m == 11
    then 30
    else 31

unfoldable pub days_before_month : ℕ → ℕ → ℕ
days_before_month y zero = 0
days_before_month y (suc zero) = 0
days_before_month y (suc (suc m)) = days_before_month y (suc m) + days_in_month y (suc m)

-- 1970-01-01 is day 719163 after 0001-01-01.
unfoldable pub day_number : Wall → ℕ
unfolding days_before_month
day_number w = days_before_year w.year + days_before_month w.year w.month + (w.day - 1)

unfoldable pub IsDate : Wall → Type 0
IsDate w = (1 ≤ w.month) × (w.month ≤ 12) × (1 ≤ w.day) × (w.day ≤ days_in_month w.year w.month)

-- The days from 0000-03-01 to the first of March of a year
abbrev march : ℕ → ℕ
march y = 365 * y + y / 4 - y / 100 + y / 400

year_bounds :
    (doe yoe : ℕ)
    → doe < 146097
    → yoe ≡ (doe - doe / 1460 + doe / 36524 - doe / 146096) / 365
    → (365 * yoe + yoe / 4 - yoe / 100 ≤ doe) × (yoe < 400) × (doe < march (yoe + 1))
year_bounds doe yoe h e = omega arith

month_bounds :
    (doy mp : ℕ)
    → doy < 366
    → mp ≡ (5 * doy + 2) / 153
    → ((153 * mp + 2) / 5 ≤ doy) × (mp < 12) × (doy < (153 * (mp + 1) + 2) / 5)
month_bounds doy mp h e = omega arith

-- What the eras add up to
era_lem :
    (era yoe : ℕ)
    → yoe < 400
    → march (yoe + era * 400) ≡ era * 146097 + (365 * yoe + yoe / 4 - yoe / 100)
era_lem era yoe h = omega arith

-- The first of March, counted from January
march_lem : (y : ℕ) → 1 ≤ y → days_before_year y + (if is_leap y then 60 else 59) + 306 ≡ march y
march_lem y h = ground arith

next_year : (y : ℕ) → days_before_year (y + 1) ≡ march y
next_year y = omega arith

leap_lem : (y : ℕ) → march (y + 1) ≡ march y + (if is_leap (y + 1) then 366 else 365)
leap_lem y = ground arith

-- A day of the year from March on, as a date, with the facts that place it
abbrev Placed : ℕ → ℕ → ℕ → ℕ → ℕ → Type 0
Placed year month first y doy =
    (1 ≤ month)
    × (month ≤ 12)
    × (doy - first + 1 ≤ days_in_month year month)
    × (days_before_year year + days_before_month year month + (doy - first) + 306 ≡ march y + doy)

placed :
    (mp y doy : ℕ)
    → 1 ≤ y
    → (153 * mp + 2) / 5 ≤ doy
    → mp < 12
    → doy < (153 * (mp + 1) + 2) / 5
    → doy < (if is_leap (y + 1) then 366 else 365)
    → Placed
        (if leb (if ltb mp 10 then mp + 3 else mp - 9) 2 then y + 1 else y)
        (if ltb mp 10 then mp + 3 else mp - 9)
        ((153 * mp + 2) / 5)
        y
        doy
unfolding days_before_month
placed zero y doy h lo small hi year = ground (arith, march_lem y h)
placed (suc zero) y doy h lo small hi year = ground (arith, march_lem y h)
placed (suc (suc zero)) y doy h lo small hi year = ground (arith, march_lem y h)
placed (suc (suc (suc zero))) y doy h lo small hi year = ground (arith, march_lem y h)
placed (suc (suc (suc (suc zero)))) y doy h lo small hi year = ground (arith, march_lem y h)
placed (suc (suc (suc (suc (suc zero))))) y doy h lo small hi year = ground (arith, march_lem y h)
placed (suc (suc (suc (suc (suc (suc zero)))))) y doy h lo small hi year =
    ground (arith, march_lem y h)
placed (suc (suc (suc (suc (suc (suc (suc zero))))))) y doy h lo small hi year =
    ground (arith, march_lem y h)
placed (suc (suc (suc (suc (suc (suc (suc (suc zero)))))))) y doy h lo small hi year =
    ground (arith, march_lem y h)
placed (suc (suc (suc (suc (suc (suc (suc (suc (suc zero))))))))) y doy h lo small hi year =
    ground (arith, march_lem y h)
placed (suc (suc (suc (suc (suc (suc (suc (suc (suc (suc zero)))))))))) y doy h lo small hi year =
    ground (arith, next_year y)
placed (suc (suc (suc (suc (suc (suc (suc (suc (suc (suc (suc zero))))))))))) y doy h lo small hi
      year =
    ground (arith, next_year y)
placed (suc (suc (suc (suc (suc (suc (suc (suc (suc (suc (suc (suc mp)))))))))))) y doy h lo small
      hi year =
    absurd (omega arith)

-- The milliseconds from 0001-01-01 to a time
unfoldable pub milliseconds : Wall → ℕ
unfolding day_number
milliseconds w = (((day_number w * 24 + w.hour) * 60 + w.minute) * 60 + w.second) * 1000 + w.milli

time_lem :
    (t days : ℕ)
    → days ≡ t / 1000 / 86400 + 719162
    → (((days * 24 + t / 1000 % 86400 / 3600) * 60 + t / 1000 % 86400 % 3600 / 60) * 60
            + t / 1000 % 86400 % 60)
          * 1000
        + t % 1000
      ≡ t + 719162 * 86400000
time_lem t days e = omega arith

-- The date of a day since 1970
date_lem : (t : ℕ) → IsDate (wall_utc t) × (day_number (wall_utc t) ≡ t / 1000 / 86400 + 719162)
unfolding IsDate day_number wall_utc day_of_year year_of_era month_index
date_lem t =
    let z = t / 1000 / 86400 + 719468 in
    let doe = z % 146097 in
    let era = z / 146097 in
    let yoe = (doe - doe / 1460 + doe / 36524 - doe / 146096) / 365 in
    let doy = doe - (365 * yoe + yoe / 4 - yoe / 100) in
    let mp = (5 * doy + 2) / 153 in
    let y = yoe + era * 400 in
    let bounds = year_bounds doe yoe (omega arith) refl in
    let at = era_lem era yoe bounds.1 in
    let later : march (y + 1) ≡ march (yoe + 1) + era * 146097 = omega arith in
    let within_year : doy < (if is_leap (y + 1) then 366 else 365) = omega (arith, leap_lem y) in
    let short : doy < 366 = ground (arith, within_year) in
    let months = month_bounds doy mp short refl in
    let place = placed mp y doy (omega arith) months.0 months.1 months.2 within_year in
    let same_day : march y + doy ≡ z = omega arith in
    ((place.0, place.1, omega arith, place.2), omega (arith, place.3))

-- What `wall_utc` makes of a number of milliseconds since 1970 is a date and a time of the Gregorian
-- calendar, as many milliseconds after 1970-01-01, which is day 719162 after 0001-01-01.
pub wall_utc_lem :
    (t : ℕ)
    → IsDate (wall_utc t)
      × ((wall_utc t).hour < 24)
      × ((wall_utc t).minute < 60)
      × ((wall_utc t).second < 60)
      × ((wall_utc t).milli < 1000)
      × (milliseconds (wall_utc t) ≡ t + 719162 * 86400000)
unfolding milliseconds
wall_utc_lem t = (
  (date_lem t).0,
  unfold wall_utc in (omega arith),
  unfold wall_utc in (omega arith),
  unfold wall_utc in (omega arith),
  unfold wall_utc in (omega arith),
  unfold wall_utc in (time_lem t (day_number (wall_utc t)) (date_lem t).1),
)
