-- ===== src/Coherence/Guards.antt =====
-- The guards of internal/service/rental_service.go against the invariant: a move that passes them
-- gives a status that fits the payment.
use rentcar_backend.Base.{
  ℕ, ◌==◌, ◌≡◌, refl, true, Option, none, some, arith, inl, inr, Bool-cases, String,
}
use rentcar_backend.Models.{
  RentalStatus, requested, approved, rejected, pending_payment, confirmed, active, UserRole, Rental,
  Payment, rental_status_eq, payment_status_eq, PaymentStatus, failed, refunded,
}
use rentcar_backend.Rentals.Service.Status.{
  open_payment, no_open_payment, next_status, validate_status_change, payment_paid,
}
use rentcar_backend.Rentals.Service.Handlers.{cancel_guard}
use rentcar_backend.Coherence.{fits, status_fits, unpaid_fits}

closed_status :
    (next : RentalStatus) (s : PaymentStatus) (action : String)
    → open_payment s action ≡ none
    → unpaid_fits next ≡ true
    → status_fits next s ≡ true
closed_status requested failed action h u = refl
closed_status requested refunded action h u = refl
closed_status next s action h u = ground arith

-- A payment that is not open fits every status of a rental that is not under way.
pub closed_fits :
    (next : RentalStatus) (o : Option Payment) (action : String)
    → no_open_payment o action ≡ none
    → unpaid_fits next ≡ true
    → fits next o ≡ true
closed_fits next none action h u = u
closed_fits next (some p) action h u = closed_status next p.status action h u

paid-fits :
    (next : RentalStatus) (o : Option Payment)
    → payment_paid o ≡ true
    → status_fits next PaymentStatus.paid ≡ true
    → fits next o ≡ true
paid-fits next none h f = absurd (ground arith)
paid-fits next (some p) h f =
    let e : p.status ≡ PaymentStatus.paid =
      (payment_status_eq.equal_iff p.status PaymentStatus.paid).0 h in
    simp e f

allowed_fits :
    (next current : RentalStatus) (o : Option Payment)
    → next_status next current o ≡ none
    → fits next o ≡ true
allowed_fits requested current o h = absurd (ground arith)
allowed_fits approved current o h = closed_fits approved o "approving" (ground arith) refl
allowed_fits rejected current o h = closed_fits rejected o "rejecting" (ground arith) refl
allowed_fits RentalStatus.cancelled current o h =
    closed_fits RentalStatus.cancelled o "cancelling" (ground arith) refl
allowed_fits pending_payment current o h = absurd (ground arith)
allowed_fits confirmed current o h = absurd (ground arith)
allowed_fits active current o h = paid-fits active o (ground arith) refl
allowed_fits RentalStatus.completed current o h =
    paid-fits RentalStatus.completed o (ground arith) refl
allowed_fits (RentalStatus.other t) current o h = absurd (ground arith)

-- The move of a rental that fits its payment, where the service allows it, fits the payment too.
pub validated_fits :
    (rental : Rental) (next : RentalStatus)
    → fits rental.row.status rental.payment ≡ true
    → validate_status_change rental next ≡ none
    → fits next rental.payment ≡ true
unfolding validate_status_change
validated_fits rental next fit h = elim (Bool-cases (next == rental.row.status)) [
  | inl same ↦ rw ((rental_status_eq.equal_iff next rental.row.status).0 same) fit
  | inr other ↦ allowed_fits next rental.row.status rental.payment (ground arith)
]

pub cancelled_fits :
    (day user : ℕ) (role : UserRole) (rental : Rental)
    → cancel_guard day user role rental ≡ none
    → fits RentalStatus.cancelled rental.payment ≡ true
unfolding cancel_guard
cancelled_fits day user role rental h =
    closed_fits RentalStatus.cancelled rental.payment "cancelling" (ground arith) refl
