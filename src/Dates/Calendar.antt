-- ===== src/Dates/Calendar.antt =====
-- The lengths of months and years in Dates, and the date after a date.
use rentcar_backend.Base.{
  ℕ, zero, suc, ◌+◌, ◌-◌, ◌≤◌, ◌≡◌, refl, nat_eq, if◌then◌else◌, ltb, Bool-cases, inl, inr, arith,
}
use rentcar_backend.Dates.{is_leap, days_in, days_before_year, days_of_months, to_date}

-- A year has 365 days, or 366 if it is a leap year.
pub year_length :
    (y : ℕ) → days_before_year (y + 1) ≡ days_before_year y + (if is_leap y then 366 else 365)
unfolding days_before_year is_leap
year_length y = ground arith

months_length : (y : ℕ) → days_of_months 12 y ≡ (if is_leap y then 366 else 365)
unfolding days_of_months days_in
months_length y = ground arith

-- The date after a date, as a year, a month and a day.
abbrev pub next_date : ℕ → ℕ → ℕ → ℕ
next_date y m d =
    if ltb d (days_in m y)
    then to_date y m (d + 1)
    else if ltb m 12
    then to_date y (m + 1) 1
    else to_date (y + 1) 1 1

same_month : (y m d : ℕ) → 1 ≤ d → to_date y m (d + 1) ≡ to_date y m d + 1
unfolding to_date
same_month y m d h = omega arith

month_step :
    (y m : ℕ) → days_of_months (suc m + 1 - 1) y ≡ days_of_months (suc m - 1) y + days_in (suc m) y
unfolding days_of_months
month_step y m =
    let after : suc m + 1 - 1 ≡ suc m = omega arith in
    let here : suc m - 1 ≡ m = omega arith in
    let this : m + 1 ≡ suc m = omega arith in
    let step : days_of_months (suc m) y ≡ days_of_months m y + days_in (suc m) y = rw this refl in
    rw (after, here) step

days_positive : (y m : ℕ) → 1 ≤ days_in m y
unfolding days_in
days_positive y m = ground arith

next_month : (y m : ℕ) → to_date y (suc m + 1) 1 ≡ to_date y (suc m) (days_in (suc m) y) + 1
unfolding to_date
next_month y m = omega (arith, month_step y m, days_positive y (suc m))

december_days : (y : ℕ) → days_in 12 y ≡ 31
unfolding days_in
december_days y = refl

next_year : (y : ℕ) → to_date (y + 1) 1 1 ≡ to_date y 12 31 + 1
unfolding to_date days_of_months days_in
next_year y = omega (arith, year_length y, months_length y)

-- A date and the date after it, by the lengths of the months and of the years, are one day apart.
pub to_date_next :
    (y m d : ℕ) → 1 ≤ m → m ≤ 12 → 1 ≤ d → d ≤ days_in m y → next_date y m d ≡ to_date y m d + 1
to_date_next y zero d m1 m12 d1 dl = absurd (omega arith)
to_date_next y (suc m) d m1 m12 d1 dl = elim (Bool-cases (ltb d (days_in (suc m) y))) [
  | inl within ↦ rw within (same_month y (suc m) d d1)
  | inr last ↦
      (let whole : d ≡ days_in (suc m) y = ground arith in
        elim (Bool-cases (ltb (suc m) 12)) [
          | inl before ↦ rw (last, before, whole) (next_month y m)
          | inr december ↦
              (let twelve : suc m ≡ 12 = ground arith in
                rw (last, december, whole, twelve, december_days y) (next_year y))
        ])
]
