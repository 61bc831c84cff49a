-- ===== src/Rentals/Service/Listing.antt =====
-- The listings of internal/service/rental_service.go.
use rentcar_backend.Base.{
  ℕ, ◌==◌, string_eq, if◌then◌else◌, Bool, not, ◌&&◌, ◌||◌, ltb, String, List, Option, none, some,
  Outcome, ok, err,
}
use rentcar_backend.AppError.{failure, Error, base, new, wrap, invalid_date, invalid_date_span}
use rentcar_backend.Models.{
  RentalStatus, pending_payment, requested, approved, rejected, confirmed, active, cancelled,
  completed, PaymentStatus, Rental, rental_status_eq, payment_status_eq,
}
use rentcar_backend.Dates.{parse_date, zero_date, is_zero_date}
use rentcar_backend.Store.{Action, ◌>>=◌, ◌>>◌, require, call}
use rentcar_backend.Rentals.Repository.{when}
use rentcar_backend.Rentals.Listings
use rentcar_backend.Rentals.Filtered
use rentcar_backend.Rentals.Filtered.{RentalListFilter, RentalListResult}
use rentcar_backend.Rentals.Service.Handlers.{lift}

-- `parseOptionalDate`
abbrev pub parse_optional_date : String → Option ℕ
parse_optional_date value = if value == "" then some zero_date else parse_date value

-- `RentalListInput`
pub record RentalListInput : Type 0 where
  pub status : RentalStatus
  pub payment_status : PaymentStatus
  pub user_id : ℕ
  pub car_id : ℕ
  pub start_from : String
  pub end_to : String
  pub page : ℕ
  pub page_size : ℕ

abbrev is_listed_status : RentalStatus → Bool
is_listed_status s =
    s == RentalStatus.other ""
    || s == pending_payment
    || s == requested
    || s == approved
    || s == rejected
    || s == confirmed
    || s == active
    || s == cancelled
    || s == completed

abbrev is_listed_payment : PaymentStatus → Bool
is_listed_payment s =
    s == PaymentStatus.other ""
    || s == PaymentStatus.pending
    || s == PaymentStatus.paid
    || s == PaymentStatus.failed
    || s == PaymentStatus.refunded

abbrev list_error : RentalListInput → Option Error
list_error i =
    if not (is_listed_status i.status)
    then some (new 400 "invalid rental status")
    else when (not (is_listed_payment i.payment_status)) (new 400 "invalid payment status")

abbrev date_of : Option ℕ → Outcome Error ℕ
date_of none = err (wrap invalid_date (failure "parsing time"))
date_of (some d) = ok d

-- `ListAll`
unfoldable pub list_all : RentalListInput → Action RentalListResult
list_all input = do
  require (list_error input)
  start ← lift (date_of (parse_optional_date input.start_from))
  end ← lift (date_of (parse_optional_date input.end_to))
  require (
      when (not (is_zero_date start) && not (is_zero_date end) && ltb end start)
        (base invalid_date_span))
  call (
      Filtered.list_all (record {
        status = input.status;
        payment_status = input.payment_status;
        user_id = input.user_id;
        car_id = input.car_id;
        start_from = start;
        end_to = end;
        page = input.page;
        page_size = input.page_size;
      }))

-- `ListByUserID`
unfoldable pub list_by_user_id : ℕ → Action (List Rental)
list_by_user_id user = call (Listings.list_by_user_id user)
