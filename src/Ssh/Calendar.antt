-- ===== src/Ssh/Calendar.antt =====
-- The date of a day number, against the Gregorian calendar.
use mathlib.Core.Path.{subst}
use egdod.Prelude.{
  sym, ap, ◌∙◌, Bool-cases, inl, inr, ltb→lt, ℕ, ◌+◌, ◌-◌, ◌*◌, ◌/◌, ◌%◌, ◌≤◌, ◌<◌, ◌≡◌, refl, Bool,
  false, ◌&&◌, ◌||◌, not, ◌==◌, if◌then◌else◌, leb, ltb, arith,
}
use egdod.Ssh.{civil_from_days, Date}

-- The calendar's own rules: leap years, the lengths of the months, and the days before a date.
abbrev pub is_leap : ℕ → Bool
is_leap y = (y % 4 == 0) && (not (y % 100 == 0) || (y % 400 == 0))

abbrev pub leap_day : ℕ → ℕ
leap_day y = if is_leap y then 1 else 0

abbrev pub month_length : ℕ → ℕ → ℕ
month_length y m =
    if m == 2 then 28 + leap_day y else if m == 4 || m == 6 || m == 9 || m == 11 then 30 else 31

-- In the years 0 to y - 1.
abbrev pub days_before_year : ℕ → ℕ
days_before_year y = 365 * y + (y + 3) / 4 + (y + 399) / 400 - (y + 99) / 100

abbrev pub days_before_month : ℕ → ℕ → ℕ
days_before_month y m =
    if m == 1
    then 0
    else if m == 2
    then 31
    else if m == 3
    then 59 + leap_day y
    else if m == 4
    then 90 + leap_day y
    else if m == 5
    then 120 + leap_day y
    else if m == 6
    then 151 + leap_day y
    else if m == 7
    then 181 + leap_day y
    else if m == 8
    then 212 + leap_day y
    else if m == 9
    then 243 + leap_day y
    else if m == 10
    then 273 + leap_day y
    else if m == 11
    then 304 + leap_day y
    else 334 + leap_day y

abbrev pub days_before : Date → ℕ
days_before t = days_before_year t.y + days_before_month t.y t.m + (t.d - 1)

abbrev year_of_era : ℕ → ℕ
year_of_era doe = (doe - doe / 1460 + doe / 36524 - doe / 146096) / 365

year_of_era-le : (doe : ℕ) → doe < 146097 → year_of_era doe ≤ 399
year_of_era-le doe h = omega arith

-- A year of the era is the one in whose span, from March on, the day lies.
year_of_era-bounds :
    (doe yoe : ℕ)
    → doe < 146097
    → yoe ≡ year_of_era doe
    → (365 * yoe + yoe / 4 - yoe / 100 ≤ doe)
      × (doe < 365 * (yoe + 1) + (yoe + 1) / 4 - (yoe + 1) / 100 + (yoe + 1) / 400)
year_of_era-bounds doe yoe h e = (omega (arith, e), omega (arith, e))

-- The day of the year that starts in March, and the month of it.
abbrev month_from_march : ℕ → ℕ
month_from_march doy = (5 * doy + 2) / 153

abbrev IsInMonth : ℕ → ℕ → ℕ → Type 0
IsInMonth y m d = (1 ≤ m) × (m ≤ 12) × (1 ≤ d) × (d ≤ month_length y m)

abbrev civil_month : ℕ → ℕ
civil_month mp = if ltb mp 10 then mp + 3 else mp - 9

abbrev civil_day : ℕ → ℕ
civil_day doy = doy - (153 * month_from_march doy + 2) / 5 + 1

-- From March to December the year is the one of the span.
march_on :
    (y doy : ℕ)
    → doy < 306
    → IsInMonth y (civil_month (month_from_march doy)) (civil_day doy)
      × (days_before_month y (civil_month (month_from_march doy)) + (civil_day doy - 1)
          ≡ 59 + leap_day y + doy)
      × (2 < civil_month (month_from_march doy))
march_on y doy h = ground arith

-- January and February are of the next year, which has the leap day of the span.
january_on :
    (y doy : ℕ)
    → 306 ≤ doy
    → doy < 365 + leap_day y
    → IsInMonth y (civil_month (month_from_march doy)) (civil_day doy)
      × (days_before_month y (civil_month (month_from_march doy)) + (civil_day doy - 1) + 306 ≡ doy)
      × (civil_month (month_from_march doy) ≤ 2)
january_on y doy h h' = ground arith

span_of :
    (era yoe : ℕ)
    → yoe ≤ 399
    → (days_before_year (yoe + era * 400) + leap_day (yoe + era * 400)
        ≡ 146097 * era + (365 * yoe + yoe / 4 - yoe / 100) + 1)
      × (days_before_year (yoe + era * 400 + 1)
          ≡ 146097 * era + (365 * yoe + yoe / 4 - yoe / 100) + 366)
      × (365 * (yoe + 1) + (yoe + 1) / 4 - (yoe + 1) / 100 + (yoe + 1) / 400
          ≡ 365 * yoe + yoe / 4 - yoe / 100 + 365 + leap_day (yoe + era * 400 + 1))
span_of era yoe h = (ground arith, omega arith, ground arith)

abbrev next_year : ℕ → ℕ
next_year m = if leb m 2 then 1 else 0

after_two : (m : ℕ) → 2 < m → next_year m ≡ 0
after_two m h = ground arith

up_to_two : (m : ℕ) → m ≤ 2 → next_year m ≡ 1
up_to_two m h = ground arith

not_early : (doy : ℕ) → ltb doy 306 ≡ false → 306 ≤ doy
not_early doy h = ground arith

-- The calendar has the date, and puts it on the day.
abbrev pub IsDateOf : ℕ → Date → Type 0
IsDateOf n t = IsInMonth t.y t.m t.d × (days_before t ≡ n + 719528)

date_of : ℕ → ℕ → Date
date_of year doy = record { y = year; m = civil_month (month_from_march doy); d = civil_day doy }

add_zero : (n : ℕ) → n + 0 ≡ n
add_zero n = omega arith

-- The three parts of the day number: the era, the year of it, and the day from March on.
split_day :
    (n next : ℕ)
    → let doe = (n + 719468) % 146097 in
      let yoe = year_of_era doe in
      let doy = doe - (365 * yoe + yoe / 4 - yoe / 100) in
      next_year (civil_month (month_from_march doy)) ≡ next
      → civil_from_days n ≡ date_of (yoe + (n + 719468) / 146097 * 400 + next) doy
unfolding civil_from_days date_of
split_day n next e = rw (← e)

-- The date of a day is a date of the calendar, and the calendar puts it on that day: 1970-01-01 is
-- day 719528 from the start of year 0.
pub civil_from_days-IsDateOf : (n : ℕ) → IsDateOf n (civil_from_days n)
civil_from_days-IsDateOf n =
    let z = n + 719468 in
    let doe = z % 146097 in
    let yoe = year_of_era doe in
    let start = 365 * yoe + yoe / 4 - yoe / 100 in
    let year = yoe + z / 146097 * 400 in
    let small : doe < 146097 = omega arith in
    let (low, high) = year_of_era-bounds doe yoe small refl in
    let (leap, next, span) = span_of (z / 146097) yoe (year_of_era-le doe small) in
    elim (Bool-cases (ltb (doe - start) 306)) [
      | inl early ↦
          let (valid, day, month) = march_on year (doe - start) (ltb→lt _ _ early) in
          subst (IsDateOf n)
            (sym (
              split_day n 0 (after_two _ month)
              ∙ ap (λ (y : ℕ). date_of y (doe - start)) (add_zero year)))
            (unfold date_of in (valid, omega (arith, day, leap, low)))
      | inr late ↦
          let (valid, day, month) =
            january_on (year + 1) (doe - start) (not_early _ late) (omega (arith, high, span)) in
          subst (IsDateOf n) (sym (split_day n 1 (up_to_two _ month)))
            (unfold date_of in (valid, omega (arith, day, next, low)))
    ]
