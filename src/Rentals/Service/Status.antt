-- ===== src/Rentals/Service/Status.antt =====
-- internal/service/rental_service.go: which moves of a rental's status the service allows.
use Prim.Native.String.{◌++◌}
use rentcar_backend.Base.{◌==◌, if◌then◌else◌, Bool, false, not, ◌&&◌, String, Option, none, some}
use rentcar_backend.AppError.{Error, new}
use rentcar_backend.Models.{
  RentalStatus, requested, approved, rejected, pending_payment, confirmed, active, Rental,
  rental_status_eq, PaymentStatus, pending, failed, refunded, Payment, payment_status_eq,
}

abbrev pub bad : String → Option Error
bad text = some (new 400 text)

-- `rentalPaymentPaid`
abbrev pub payment_paid : Option Payment → Bool
payment_paid none = false
payment_paid (some p) = p.status == PaymentStatus.paid

abbrev pub open_payment : PaymentStatus → String → Option Error
open_payment failed action = none
open_payment refunded action = none
open_payment pending action = bad ("fail the pending payment before " ++ action ++ " rental")
open_payment PaymentStatus.paid action =
    bad ("refund the paid payment before " ++ action ++ " rental")
open_payment (PaymentStatus.other _) action =
    bad ("payment must be resolved before " ++ action ++ " rental")

-- `ensureRentalHasNoOpenPayment`
abbrev pub no_open_payment : Option Payment → String → Option Error
no_open_payment none action = none
no_open_payment (some p) action = open_payment p.status action

-- The rental that was read, and the status it would move to: the `switch` on that status.
abbrev pub next_status : RentalStatus → RentalStatus → Option Payment → Option Error
next_status requested current payment = bad "rental cannot be moved back to requested"
next_status approved current payment =
    if not (current == requested)
      && not (current == rejected)
      && not (current == RentalStatus.cancelled)
    then bad "only requested, rejected, or cancelled rentals can be approved"
    else no_open_payment payment "approving"
next_status rejected current payment =
    if not (current == requested) && not (current == approved)
    then bad "only requested or approved rentals can be rejected"
    else no_open_payment payment "rejecting"
next_status RentalStatus.cancelled current payment =
    if current == RentalStatus.completed
    then bad "completed rental cannot be cancelled"
    else no_open_payment payment "cancelling"
next_status pending_payment current payment =
    bad "create a payment request to mark rental as pending payment"
next_status confirmed current payment = bad "confirm the payment to confirm rental"
next_status active current payment =
    if not (payment_paid payment)
    then bad "payment must be paid before activating rental"
    else if not (current == confirmed)
    then bad "only confirmed rentals can be activated"
    else none
next_status RentalStatus.completed current payment =
    if not (payment_paid payment)
    then bad "payment must be paid before completing rental"
    else if not (current == active)
    then bad "only active rentals can be completed"
    else none
next_status (RentalStatus.other _) current payment = bad "invalid rental status"

-- `validateRentalStatusChange`
unfoldable pub validate_status_change : Rental → RentalStatus → Option Error
validate_status_change rental next =
    if next == rental.row.status then none else next_status next rental.row.status rental.payment
