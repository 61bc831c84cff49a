-- ===== src/Dates/Civil.antt =====
-- The year, the month and the day of a number of days, and the texts in which package `time` writes a time.
use Prim.Native.Char.{Char, code}
use Prim.Native.String.{◌++◌}
use rentcar_backend.Base.{
  ℕ, zero, suc, ◌+◌, ◌-◌, ◌/◌, ◌%◌, ◌==◌, nat_eq, if◌then◌else◌, ltb, String, List, [], ◌∷◌,
}
use mathlib.Core.List.{reverse}
use rentcar_backend.Dates.{days_before_year, days_of_months}
use rentcar_backend.Text.{chars, of_chars}
use rentcar_backend.Text.Decimal.{decimal}

-- The year and the month of a day: the last that have begun.
abbrev pub year_from : ℕ → ℕ → ℕ → ℕ
year_from zero year day = year
year_from (suc fuel) year day =
    let rest = year_from fuel (year + 1) day in
    if ltb day (days_before_year (year + 1)) then year else rest

abbrev pub month_from : ℕ → ℕ → ℕ → ℕ → ℕ
month_from zero month year rest = month
month_from (suc fuel) month year rest =
    let later = month_from fuel (month + 1) year rest in
    if ltb rest (days_of_months month year) then month else later

abbrev date_from : ℕ → ℕ → String
date_from year rest =
    let month = month_from 11 1 year rest in
    decimal 4 year
    ++ ("-" ++ (decimal 2 month ++ ("-" ++ decimal 2 (rest - days_of_months (month - 1) year + 1))))

-- `Format(time.DateOnly)` of a day
unfoldable pub date_text : ℕ → String
date_text day =
    let year = year_from (day / 365 + 1) 0 day in date_from year (day - days_before_year year)

abbrev without_zeros : List Char → List Char
without_zeros [] = []
without_zeros (c ∷ cs) = let rest = without_zeros cs in if code c == b'0' then rest else c ∷ cs

-- Decimals without the zeros at their end, behind a point.
unfoldable pub fraction : ℕ → ℕ → String
fraction width n =
    if n == 0
    then ""
    else "." ++ of_chars (reverse (without_zeros (reverse (chars (decimal width n)))))

-- The nanoseconds of a day as `15:04:05.999999999`.
abbrev clock_text : ℕ → String
clock_text n =
    let seconds = n / 1_000_000_000 in
    decimal 2 (seconds / 3_600)
    ++ (":"
        ++ (decimal 2 (seconds / 60 % 60)
            ++ (":" ++ (decimal 2 (seconds % 60) ++ fraction 9 (n % 1_000_000_000)))))

-- `time.RFC3339Nano` of a time in UTC
unfoldable pub time_text : ℕ → String
time_text t =
    date_text (t / 86_400_000_000_000) ++ ("T" ++ (clock_text (t % 86_400_000_000_000) ++ "Z"))
