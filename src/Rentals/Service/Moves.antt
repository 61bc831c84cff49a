-- ===== src/Rentals/Service/Moves.antt =====
-- The moves of a rental's status that internal/service/rental_service.go allows an administrator.
use rentcar_backend.Base.{
  ◌==◌, ◌≡◌, ◌≢◌, refl, ◌↔◌, true, Option, none, some, arith, inl, inr, Bool-cases, String,
  if◌then◌else◌,
}
use rentcar_backend.AppError.{Error}
use rentcar_backend.Models.{
  RentalStatus, requested, approved, rejected, confirmed, active, Rental, rental_status_eq,
  PaymentStatus, failed, refunded, Payment, payment_status_eq,
}
use rentcar_backend.Rentals.Service.Status.{
  no_open_payment, payment_paid, next_status, validate_status_change,
}

-- A payment that is owed or held no more.
pub data IsClosed : Option Payment → Type 0 where
  absent : IsClosed none
  was_failed : {p : Payment} → p.status ≡ failed → IsClosed (some p)
  was_refunded : {p : Payment} → p.status ≡ refunded → IsClosed (some p)

pub data IsPaid : Option Payment → Type 0 where
  was_paid : {p : Payment} → p.status ≡ PaymentStatus.paid → IsPaid (some p)

-- From one status to another, with the payment that the rental has.
pub data Move (o : Option Payment) : RentalStatus → RentalStatus → Type 0 where
  stay : {s : RentalStatus} → Move o s s
  approve_requested : IsClosed o → Move o requested approved
  approve_rejected : IsClosed o → Move o rejected approved
  approve_cancelled : IsClosed o → Move o RentalStatus.cancelled approved
  reject_requested : IsClosed o → Move o requested rejected
  reject_approved : IsClosed o → Move o approved rejected
  cancel :
      {s : RentalStatus} → s ≢ RentalStatus.completed → IsClosed o → Move o s RentalStatus.cancelled
  activate : IsPaid o → Move o confirmed active
  complete : IsPaid o → Move o active RentalStatus.completed

is_closed : (o : Option Payment) (action : String) → no_open_payment o action ≡ none → IsClosed o
is_closed none action h = absent
is_closed (some p) action h = by_status p p.status refl action h
  where
    by_status :
        (p : Payment) (s : PaymentStatus)
        → p.status ≡ s
        → (action : String) → no_open_payment (some p) action ≡ none
        → IsClosed (some p)
    by_status p failed e action h = was_failed e
    by_status p refunded e action h = was_refunded e
    by_status p s e action h = absurd (ground arith)

is_paid : (o : Option Payment) → payment_paid o ≡ true → IsPaid o
is_paid none h = absurd (ground arith)
is_paid (some p) h = was_paid ((payment_status_eq.equal_iff p.status PaymentStatus.paid).0 h)

allowed_move :
    (current next : RentalStatus) (o : Option Payment)
    → next_status next current o ≡ none
    → Move o current next
allowed_move requested approved o h = approve_requested (is_closed o "approving" (ground arith))
allowed_move rejected approved o h = approve_rejected (is_closed o "approving" (ground arith))
allowed_move RentalStatus.cancelled approved o h =
    approve_cancelled (is_closed o "approving" (ground arith))
allowed_move requested rejected o h = reject_requested (is_closed o "rejecting" (ground arith))
allowed_move approved rejected o h = reject_approved (is_closed o "rejecting" (ground arith))
allowed_move s RentalStatus.cancelled o h =
    cancel (λ e. absurd (let e' : s ≡ RentalStatus.completed = e in ground arith))
      (is_closed o "cancelling" (ground arith))
allowed_move confirmed active o h = activate (is_paid o (ground arith))
allowed_move active RentalStatus.completed o h = complete (is_paid o (ground arith))
allowed_move s next o h = absurd (ground arith)

closed_none : (o : Option Payment) (action : String) → IsClosed o → no_open_payment o action ≡ none
closed_none none action absent = refl
closed_none (some p) action (was_failed e) = ground arith
closed_none (some p) action (was_refunded e) = ground arith

paid_true : (o : Option Payment) → IsPaid o → payment_paid o ≡ true
paid_true none h = elim h [ ]
paid_true (some p) (was_paid e) = (payment_status_eq.equal_iff p.status PaymentStatus.paid).1 e

-- The check of a move, on the two statuses and the payment.
abbrev checked : RentalStatus → RentalStatus → Option Payment → Option Error
checked current next o = if next == current then none else next_status next current o

cancel_allowed :
    (s : RentalStatus) (o : Option Payment)
    → s ≢ RentalStatus.completed
    → no_open_payment o "cancelling" ≡ none
    → checked s RentalStatus.cancelled o ≡ none
cancel_allowed RentalStatus.completed o unfinished c = absurd (unfinished refl)
cancel_allowed s o unfinished c = ground arith

move_allowed :
    (current next : RentalStatus) (o : Option Payment)
    → Move o current next
    → checked current next o ≡ none
move_allowed s s' o stay =
    let same : (s == s) ≡ true = (rental_status_eq.equal_iff s s).1 refl in ground arith
move_allowed s approved o (approve_requested c) = closed_none o "approving" c
move_allowed s approved o (approve_rejected c) = closed_none o "approving" c
move_allowed s approved o (approve_cancelled c) = closed_none o "approving" c
move_allowed s rejected o (reject_requested c) = closed_none o "rejecting" c
move_allowed s rejected o (reject_approved c) = closed_none o "rejecting" c
move_allowed s s' o (cancel unfinished c) =
    cancel_allowed s o unfinished (closed_none o "cancelling" c)
move_allowed s s' o (activate p) = let paid : payment_paid o ≡ true = paid_true o p in ground arith
move_allowed s s' o (complete p) = let paid : payment_paid o ≡ true = paid_true o p in ground arith

-- The service lets a rental move to a status exactly where the relation `Move` has that move: its own
-- status again; an approval of a rental that is requested, rejected or cancelled, a rejection of one
-- that is requested or approved, and a cancellation of one that is not completed, each where no
-- payment is pending or paid; and the start of a confirmed and the end of an active rental that is
-- paid for.
pub validated_moves :
    (rental : Rental) (next : RentalStatus)
    → (validate_status_change rental next ≡ none) ↔ Move rental.payment rental.row.status next
unfolding validate_status_change
validated_moves rental next = (sound, move_allowed rental.row.status next rental.payment)
  where
    sound :
        checked rental.row.status next rental.payment ≡ none
        → Move rental.payment rental.row.status next
    sound h = elim (Bool-cases (next == rental.row.status)) [
      | inl same ↦ rw ((rental_status_eq.equal_iff next rental.row.status).0 same) stay
      | inr other ↦ allowed_move rental.row.status next rental.payment (ground arith)
    ]
