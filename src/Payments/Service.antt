-- ===== src/Payments/Service.antt =====
-- internal/service/payment_service.go.
use rentcar_backend.Base.{
  ℕ, ◌==◌, nat_eq, if◌then◌else◌, not, ◌&&◌, Option, none, some, Outcome, ok, err,
}
use rentcar_backend.AppError.{Error, base, new, forbidden, payment_exists, is_not_found}
use rentcar_backend.Models.{
  approved, pending_payment, rental_status_eq, UserRole, PaymentMethod, pending, Payment, RentalRow,
}
use rentcar_backend.Store.{Action, ◌>>=◌, ◌>>◌, require, call, catch}
use rentcar_backend.Rentals.Repository as RentalRepository
use rentcar_backend.Rentals.Repository.{when}
use rentcar_backend.Rentals.Service.Handlers.{may_access}
use rentcar_backend.Payments.Repository

pub record PaymentInput : Type 0 where
  pub rental_id : ℕ
  pub method : PaymentMethod

-- A payment that is found is a conflict; any error but `ErrNotFound` is passed on.
abbrev pub existing_error : Outcome Error Payment → Option Error
existing_error (ok _) = some (base payment_exists)
existing_error (err e) = if is_not_found e then none else some e

abbrev pub new_payment : RentalRow → PaymentMethod → Payment
new_payment r method = record {
  id = 0;
  rental_id = r.id;
  amount = r.total_amount;
  method = method;
  status = pending;
  paid_at = none;
  created_at = 0;
  updated_at = 0;
}

-- `Create`
unfoldable pub create : ℕ → UserRole → PaymentInput → Action Payment
create user role input = do
  rental ← call (RentalRepository.find_by_id input.rental_id)
  require (when (not (may_access user role rental.row)) (base forbidden))
  require (
      when (not (rental.row.status == pending_payment) && not (rental.row.status == approved))
        (new 400 "payment can be created only for approved rentals"))
  existing ← call (catch (Repository.find_by_rental_id rental.row.id))
  require (existing_error existing)
  call (Repository.create_for_rental (new_payment rental.row input.method) rental.row.status)

-- `Confirm`, `Fail`, `Refund`, `FindByID`
unfoldable pub confirm : ℕ → Action (Unit {0})
confirm id = call (Repository.confirm id)

unfoldable pub fail_payment : ℕ → Action (Unit {0})
fail_payment id = call (Repository.fail_payment id)

unfoldable pub refund : ℕ → Action (Unit {0})
refund id = call (Repository.refund id)

unfoldable pub find_by_id : ℕ → Action Payment
find_by_id id = call (Repository.find_by_id id)
