-- ===== src/Rentals/Service/Handlers.antt =====
-- internal/service/rental_service.go: each method of `RentalService` that books a car or moves the
-- status of a rental, as the calls of repositories that it makes.
use rentcar_backend.Base.{
  ℕ, ◌+◌, ◌-◌, ◌*◌, ◌==◌, nat_eq, if◌then◌else◌, Bool, true, false, not, ◌&&◌, ◌||◌, leb, ltb,
  String, Option, none, some, Outcome, ok, err,
}
use rentcar_backend.AppError.{
  failure, Error, base, new, wrap, forbidden, car_unavailable, double_booking, invalid_date,
  invalid_date_span,
}
use rentcar_backend.Models.{
  RentalStatus, requested, approved, rejected, confirmed, RentalRow, Rental, UserRole, admin,
  super_admin, rental_status_eq, user_role_eq,
}
use rentcar_backend.Dates.{parse_date}
use rentcar_backend.Store.{Action, pure, ◌>>=◌, ◌>>◌, require, gets, call, today}
use rentcar_backend.Rentals.Repository
use rentcar_backend.Rentals.Repository.{when, is_unavailable, create_with_availability}
use rentcar_backend.Rentals.Service.Status.{bad, no_open_payment, validate_status_change}
use rentcar_backend.Cars.Repository as CarRepository

pub record RentalInput : Type 0 where
  pub car_id : ℕ
  pub start_date : String
  pub end_date : String

-- The first and the last day, and how many days are charged.
pub record Span : Type 0 where
  pub start : ℕ
  pub end : ℕ
  pub days : ℕ

-- `int(endDate.Sub(startDate).Hours()/24) + 1`: a `time.Duration` holds 106751 whole days at most, and
-- `Sub` stops there.
abbrev pub max_duration_days : ℕ
max_duration_days = 106_751

abbrev pub charged_days : ℕ → ℕ → ℕ
charged_days start end =
    (if leb (end - start) max_duration_days then end - start else max_duration_days) + 1

-- The texts of the parser's own errors are left empty.
abbrev date_error : Error
date_error = wrap invalid_date (failure "")

check_span : ℕ → ℕ → ℕ → Outcome Error Span
check_span now start end =
    if ltb end start
    then err (base invalid_date_span)
    else if ltb start now
    then err (new 400 "start_date cannot be in the past")
    else ok (record { start = start; end = end; days = charged_days start end })

-- `parseRentalDates`, on the current day
unfoldable pub parse_rental_dates : ℕ → String → String → Outcome Error Span
unfolding check_span
parse_rental_dates now start end = elim (parse_date start) [
  | none ↦ err date_error
  | some s ↦ elim (parse_date end) [ none ↦ err date_error | some e ↦ check_span now s e ]
]

abbrev pub lift : {A : Type 0} → Outcome Error A → Action A
lift r w = (r, w)

-- The rental that a request asks for, before the database gives it an identifier.
abbrev pub requested_row : ℕ → ℕ → Span → ℕ → RentalRow
requested_row user car span daily_rate = record {
  id = 0;
  user_id = user;
  car_id = car;
  start_date = span.start;
  end_date = span.end;
  total_amount = span.days * daily_rate;
  status = requested;
  created_at = 0;
  updated_at = 0;
}

-- `Create`
unfoldable pub create : ℕ → RentalInput → Action RentalRow
unfolding today
create user input = do
  day ← gets today
  span ← lift (parse_rental_dates day input.start_date input.end_date)
  car ← call (CarRepository.find_by_id input.car_id)
  require (when (is_unavailable car.status) (base car_unavailable))
  available ← call (CarRepository.is_available input.car_id span.start span.end)
  require (when (not available) (base double_booking))
  call (create_with_availability (requested_row user input.car_id span car.daily_rate))

pub record AvailabilityResult : Type 0 where
  pub car_id : ℕ
  pub available : Bool
  pub reason : String
  pub start_date : String
  pub end_date : String
  pub days : ℕ
  pub daily_rate : ℕ
  pub total_amount : ℕ

abbrev reason_of : Bool → String
reason_of true = ""
reason_of false = "car is already booked for selected dates"

abbrev availability : RentalInput → Span → ℕ → Bool → String → AvailabilityResult
availability input span rate available reason = record {
  car_id = input.car_id;
  available = available;
  reason = reason;
  start_date = input.start_date;
  end_date = input.end_date;
  days = span.days;
  daily_rate = rate;
  total_amount = span.days * rate;
}

check_bookings : RentalInput → Span → ℕ → Action AvailabilityResult
check_bookings input span rate = do
  free ← call (CarRepository.is_available input.car_id span.start span.end)
  pure (availability input span rate free (reason_of free))

-- `CheckAvailability`
unfoldable pub check_availability : RentalInput → Action AvailabilityResult
unfolding today check_bookings
check_availability input = do
  day ← gets today
  span ← lift (parse_rental_dates day input.start_date input.end_date)
  car ← call (CarRepository.find_by_id input.car_id)
  (if is_unavailable car.status
      then pure (availability input span car.daily_rate false "car is not available for rent")
      else check_bookings input span car.daily_rate)

-- The caller may see and move the rental: its customer, or an administrator.
abbrev pub may_access : ℕ → UserRole → RentalRow → Bool
may_access user role r = r.user_id == user || role == admin || role == super_admin

-- `FindByID`
unfoldable pub find_by_id : ℕ → UserRole → ℕ → Action Rental
find_by_id user role id = do
  rental ← call (Repository.find_by_id id)
  require (when (not (may_access user role rental.row)) (base forbidden))
  pure rental

-- `UpdateStatus`
unfoldable pub update_status : ℕ → RentalStatus → Action (Unit {0})
update_status id next = do
  rental ← call (Repository.find_by_id id)
  require (validate_status_change rental next)
  call (Repository.update_status id next)

abbrev pub with_status : RentalStatus → Rental → Rental
with_status s rental = record rental { row = record (rental.row) { status = s } }

-- `rental.Status != models.RentalStatusRequested`
abbrev pub not_asked : Rental → Option Error
not_asked rental =
    when (not (rental.row.status == requested)) (new 400 "only requested rentals can be approved")

-- `Approve`
unfoldable pub approve : ℕ → Action Rental
approve id = do
  rental ← call (Repository.find_by_id id)
  require (not_asked rental)
  require (no_open_payment rental.payment "approving")
  call (Repository.update_status id approved)
  pure (with_status approved rental)

-- The first guard of `Reject`.
abbrev pub not_open : Rental → Option Error
not_open rental =
    when (not (rental.row.status == requested) && not (rental.row.status == approved))
      (new 400 "only requested or approved rentals can be rejected")

-- `Reject`
unfoldable pub reject : ℕ → Action Rental
reject id = do
  rental ← call (Repository.find_by_id id)
  require (not_open rental)
  require (no_open_payment rental.payment "rejecting")
  call (Repository.update_status id rejected)
  pure (with_status rejected rental)

-- A confirmed rental can be cancelled only before the day of its pickup.
abbrev pub too_late : ℕ → RentalRow → Bool
too_late day r = r.status == confirmed && not (ltb day r.start_date)

-- The guards of `Cancel`, in their order.
unfoldable pub cancel_guard : ℕ → ℕ → UserRole → Rental → Option Error
cancel_guard day user role rental =
    if not (may_access user role rental.row)
    then some (base forbidden)
    else if rental.row.status == RentalStatus.cancelled
    then bad "rental is already cancelled"
    else if rental.row.status == RentalStatus.completed
    then bad "completed rental cannot be cancelled"
    else elim (no_open_payment rental.payment "cancelling") [
      | some e ↦ some e
      | none ↦
          when (too_late day rental.row)
            (new 400 "confirmed rental can be cancelled only before pickup date")
    ]

-- `Cancel`
unfoldable pub cancel : ℕ → UserRole → ℕ → Action (Unit {0})
unfolding today
cancel user role id = do
  rental ← call (Repository.find_by_id id)
  day ← gets today
  require (cancel_guard day user role rental)
  call (Repository.cancel id)
