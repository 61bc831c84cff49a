-- ===== src/Rentals/Calendared.antt =====
-- The calendar of a car by AvailabilityCalendar, against IsAvailable on each day.
use mathlib.Core.List.{◌++◌ as append}
use rentcar_backend.Base.{
  ℕ, ◌+◌, ◌-◌, ◌==◌, string_eq, ◌≡◌, ap, ◌∙◌, true, not, ◌&&◌, if◌then◌else◌, String, List, [], ok,
  none, some, Option, select, arith, Outcome, Bool-cases, inl, inr,
}
use rentcar_backend.AppError.{Error}
use rentcar_backend.Dates.{parse_month, to_date, days_in}
use rentcar_backend.Store.{Database, World, Action, today}
use rentcar_backend.Store.Constraints.{books, maintains, overlaps}
use rentcar_backend.Store.Inversion.{bind-ok}
use rentcar_backend.Cars.Repository.{is_free}
use rentcar_backend.Rentals.Listings.{
  AvailabilityRange, rental_range, maintenance_range, ranges_by_start,
}
use rentcar_backend.Rentals.Service.Handlers.{lift}
use rentcar_backend.Rentals.Calendar.{
  block, CalendarInput, CalendarResult, month_calendar, availability_calendar, month_text,
  month_or_error,
}
use rentcar_backend.Rentals.Blocked.{
  has, within, has-block, exists-append, rental_days, maintenance_days, calendar_ranges,
}

-- The ranges of the rentals, and behind them those of the maintenances.
abbrev all_ranges : ℕ → ℕ → ℕ → Database → List AvailabilityRange
all_ranges car start end db =
    append (ranges_by_start rental_range (select (books car start end) db.rentals))
      (ranges_by_start maintenance_range (select (maintains car start end) db.maintenances))

blocked_days :
    (car start end d : ℕ) (db : Database)
    → has d (block start end (all_ranges car start end db) [])
      ≡ (within start end d && not (is_free car d d db))
blocked_days car start end d db = elim (Bool-cases (within start end d)) [
  | inl inside ↦
      has-block start end (all_ranges car start end db) [] d
      ∙ ground (
        arith,
        inside,
        exists-append (λ i. overlaps i.start_date i.end_date d d)
            (ranges_by_start rental_range (select (books car start end) db.rentals))
            (ranges_by_start maintenance_range (select (maintains car start end) db.maintenances)),
        rental_days car start end d db inside,
        maintenance_days car start end d db inside,
      )
  | inr outside ↦ has-block start end (all_ranges car start end db) [] d ∙ ground (arith, outside)
]

-- The month that a calendar is about.
abbrev pub month_of : ℕ → CalendarInput → String
month_of day input = if input.month == "" then month_text day else input.month

month_read : (o : Option (ℕ × ℕ)) (m : ℕ × ℕ) → month_or_error o ≡ ok m → o ≡ some m
month_read none m h = absurd (ground arith)
month_read (some n) m h = ground arith

-- An AvailabilityCalendar that succeeds, with no other request in between, blocks exactly the days of its month
-- on which the car is not free: those of a rental or of a maintenance that blocks it.
pub availability_calendar_lem :
    (input : CalendarInput) (r : CalendarResult) (w : World)
    → w.others ≡ []
    → (availability_calendar true input w).0 ≡ ok r
    → (m : ℕ × ℕ) × (parse_month (month_of (today w) input) ≡ some m)
      × ((d : ℕ)
          → has d r.blocked_days ≡ (
              within (to_date m.0 m.1 1) (to_date m.0 m.1 1 + days_in m.1 m.0 - 1) d
              && not (is_free input.car_id d d w.db)))
unfolding availability_calendar
availability_calendar_lem input r w alone h =
    let month : String = month_of (today w) input in
    let o : Outcome Error (ℕ × ℕ) = month_or_error (parse_month month) in
    let go : ℕ × ℕ → Action CalendarResult = λ m.
      month_calendar true input.car_id month (to_date m.0 m.1 1)
        (to_date m.0 m.1 1 + days_in m.1 m.0 - 1) in
    let (m, read, after, _) = bind-ok (lift o) go w r h in
    let start : ℕ = to_date m.0 m.1 1 in
    let end : ℕ = start + days_in m.1 m.0 - 1 in
    let days = calendar_ranges input.car_id start end month r w alone after in
    (
      m,
      month_read (parse_month month) m read.result,
      λ d. ap (has d) days ∙ blocked_days input.car_id start end d w.db,
    )
