-- ===== src/Reports/Service.antt =====
-- internal/service/report_service.go.
use rentcar_backend.Base.{
  ℕ, ◌+◌, ◌-◌, ◌*◌, ◌/◌, ◌%◌, ◌==◌, nat_eq, string_eq, if◌then◌else◌, ltb, String, Option, none,
  some, Outcome, ok, err,
}
use rentcar_backend.AppError.{Error, base, invalid_date, invalid_date_span}
use rentcar_backend.Dates.{parse_date, to_date, days_before_year, days_of_months}
use rentcar_backend.Dates.Civil.{year_from, month_from}
use rentcar_backend.Store.{Action, ◌>>=◌, ◌>>◌, require, gets, call}
use rentcar_backend.Rentals.Repository.{when}
use rentcar_backend.Rentals.Service.Handlers.{lift}
use rentcar_backend.Reports.Repository
use rentcar_backend.Reports.Repository.{ReportSummary, day_length}

pub record ReportInput : Type 0 where
  pub start_date : String
  pub end_date : String

-- The same day of another month, which runs on into the next month where it has no such day.
abbrev day_of_month : ℕ → ℕ → ℕ → ℕ
day_of_month year month day =
    if month == 1 then to_date (year - 1) 12 day else to_date year (month - 1) day

abbrev back_from : ℕ → ℕ → ℕ
back_from year rest =
    let month = month_from 11 1 year rest in
    day_of_month year month (rest - days_of_months (month - 1) year + 1)

-- `AddDate(0, -1, 0)` of a day
unfoldable pub month_before : ℕ → ℕ
unfolding to_date days_before_year days_of_months
month_before day =
    let year = year_from (day / 365 + 1) 0 day in back_from year (day - days_before_year year)

abbrev pub month_earlier : ℕ → ℕ
month_earlier t = month_before (t / day_length) * day_length + t % day_length

abbrev pub parsed : Option ℕ → Outcome Error ℕ
parsed none = err (base invalid_date)
parsed (some day) = ok (day * day_length)

-- A date of the input, or a time where there is none.
abbrev pub date_or : ℕ → String → Outcome Error ℕ
date_or default value = if value == "" then ok default else parsed (parse_date value)

-- `Summary`
unfoldable pub summary : ReportInput → Action ReportSummary
unfolding month_before
summary input = do
  now ← gets (λ w. w.now)
  start ← lift (date_or (month_earlier now) input.start_date)
  end ← lift (date_or now input.end_date)
  require (when (ltb end start) (base invalid_date_span))
  call (Repository.summary start end)
