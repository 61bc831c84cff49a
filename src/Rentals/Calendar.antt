-- ===== src/Rentals/Calendar.antt =====
-- The calendar of a car: AvailabilityCalendar of internal/service/rental_service.go. A day is its number, which
-- the source writes YYYY-MM-DD; up to the year 9999 such texts sort as the days do.
use Prim.Native.String.{◌++◌}
use rentcar_backend.Base.{
  ℕ, zero, suc, ◌+◌, ◌-◌, ◌/◌, ◌==◌, nat_eq, string_eq, if◌then◌else◌, Bool, true, false, ltb,
  String, List, [], ◌∷◌, Option, none, some, Outcome, ok, err,
}
use mathlib.Core.List.{◌++◌ as append}
use rentcar_backend.AppError.{Error, base, invalid_date}
use rentcar_backend.Dates.{parse_month, to_date, days_in, days_before_year}
use rentcar_backend.Dates.Civil.{year_from, month_from}
use rentcar_backend.Text.Decimal.{decimal}
use rentcar_backend.Store.{Action, pure, ◌>>=◌, gets, call, today}
use rentcar_backend.Rentals.Listings.{
  AvailabilityRange, list_calendar_ranges, list_maintenance_ranges,
}
use rentcar_backend.Rentals.Service.Handlers.{lift}
use rentcar_backend.Cars.Repository as CarRepository

-- `time.Now().Format("2006-01")`; a year has 365 days at least and 12 months.
abbrev pub month_text : ℕ → String
month_text day =
    let year = year_from (day / 365 + 1) 0 day in
    let month = month_from 11 1 year (day - days_before_year year) in
    decimal 4 year ++ ("-" ++ decimal 2 month)

-- A set of days as the list of them in order.
abbrev pub insert_day : ℕ → List ℕ → List ℕ
insert_day day [] = day ∷ []
insert_day day (x ∷ xs) =
    let rest = insert_day day xs in
    if day == x then x ∷ xs else if ltb day x then day ∷ x ∷ xs else x ∷ rest

-- The loop over the days of a range; the fuel is the days that are left and one more.
abbrev pub mark : ℕ → ℕ → ℕ → List ℕ → List ℕ
mark zero day end blocked = blocked
mark (suc fuel) day end blocked =
    let rest = mark fuel (day + 1) end (insert_day day blocked) in
    if ltb end day then blocked else rest

-- `maxTime` and `minTime`
abbrev pub max_day : ℕ → ℕ → ℕ
max_day a b = if ltb b a then a else b

abbrev pub min_day : ℕ → ℕ → ℕ
min_day a b = if ltb a b then a else b

-- The loop over the ranges.
abbrev pub block : ℕ → ℕ → List AvailabilityRange → List ℕ → List ℕ
block month_start month_end [] blocked = blocked
block month_start month_end (item ∷ items) blocked =
    let start = max_day item.start_date month_start in
    let end = min_day item.end_date month_end in
    block month_start month_end items (mark (suc end - start + 1) start end blocked)

-- `AvailabilityCalendarInput` and `AvailabilityCalendarResult`
pub record CalendarInput : Type 0 where
  pub car_id : ℕ
  pub month : String

pub record CalendarResult : Type 0 where
  pub car_id : ℕ
  pub month : String
  pub blocked_days : List ℕ
  pub ranges : List AvailabilityRange

abbrev pub month_or_error : Option (ℕ × ℕ) → Outcome Error (ℕ × ℕ)
month_or_error none = err (base invalid_date)
month_or_error (some m) = ok m

-- What the service has of a car between two days; the repository of maintenances may be missing.
abbrev pub ranges_of : Bool → ℕ → ℕ → ℕ → List AvailabilityRange → Action (List AvailabilityRange)
ranges_of false car start end ranges = pure ranges
ranges_of true car start end ranges = do
  maintenances ← call (list_maintenance_ranges car start end)
  pure (append ranges maintenances)

abbrev pub calendar_result : ℕ → String → ℕ → ℕ → List AvailabilityRange → CalendarResult
calendar_result car month start end ranges = record {
  car_id = car;
  month = month;
  blocked_days = block start end ranges [];
  ranges = ranges;
}

-- The calls for a month that was read.
unfoldable pub month_calendar : Bool → ℕ → String → ℕ → ℕ → Action CalendarResult
month_calendar with_maintenance car month start end = do
  found ← call (CarRepository.find_by_id car)
  rentals ← call (list_calendar_ranges car start end)
  ranges ← ranges_of with_maintenance car start end rentals
  pure (calendar_result car month start end ranges)

-- `AvailabilityCalendar`
unfoldable pub availability_calendar : Bool → CalendarInput → Action CalendarResult
availability_calendar with_maintenance input = do
  day ← gets today
  let month = if input.month == "" then month_text day else input.month
  (year, m) ← lift (month_or_error (parse_month month))
  let start = to_date year m 1
  month_calendar with_maintenance input.car_id month start (start + days_in m year - 1)
