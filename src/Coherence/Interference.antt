-- ===== src/Coherence/Interference.antt =====
-- The invariant while other requests commit between the calls of a service: internal/service/
-- payment_service.go, and the booking of internal/service/rental_service.go.
use rentcar_backend.Base.{
  ℕ, ◌==◌, ◌≡◌, refl, ap, Bool, none, Outcome, arith, not, ◌&&◌, inl, inr, ◌⊎◌, Bool-cases,
}
use rentcar_backend.AppError.{Error, base, new, forbidden, car_unavailable, double_booking}
use rentcar_backend.Models.{
  approved, pending_payment, UserRole, Rental, RentalRow, Payment, Car, rental_status_eq,
}
use rentcar_backend.Store.{World, Action, ◌>>=◌, ◌>>◌, require, call, catch, yield, today}
use rentcar_backend.Store.Keeps.{keep_bind, keep_require, Holds, yield-Holds}
use rentcar_backend.Store.Reads.{Reads, exec-Reads, catch-Reads, after_read}
use rentcar_backend.Rentals.Repository as RentalRepository
use rentcar_backend.Rentals.Repository.{when, is_unavailable, create_with_availability}
use rentcar_backend.Rentals.Service.Handlers as RentalService
use rentcar_backend.Rentals.Service.Handlers.{
  RentalInput, Span, parse_rental_dates, lift, requested_row, may_access,
}
use rentcar_backend.Cars.Repository as CarRepository
use rentcar_backend.Payments.Repository
use rentcar_backend.Payments.Repository.{create_for_rental}
use rentcar_backend.Payments.Service.{
  PaymentInput, create, confirm, fail_payment, refund, existing_error, new_payment,
}
use rentcar_backend.Coherence.{IsCoherent}
use rentcar_backend.Coherence.Payments.{
  confirm-IsCoherent, fail_payment-IsCoherent, refund-IsCoherent,
}
use rentcar_backend.Coherence.NewPayments.{create_for_rental-IsCoherent}
use rentcar_backend.Coherence.Rentals.{create_with_availability-IsCoherent}

pub find_rental-Reads : (id : ℕ) → Reads (RentalRepository.find_by_id id)
unfolding RentalRepository.find_by_id
find_rental-Reads id = exec-Reads _ λ db db' a h. ground arith

pub find_payment-Reads : (id : ℕ) → Reads (Repository.find_by_rental_id id)
unfolding Repository.find_by_rental_id
find_payment-Reads id = exec-Reads _ λ db db' a h. ground arith

pub find_car-Reads : (id : ℕ) → Reads (CarRepository.find_by_id id)
unfolding CarRepository.find_by_id
find_car-Reads id = exec-Reads _ λ db db' a h. ground arith

pub is_available-Reads : (car start end : ℕ) → Reads (CarRepository.is_available car start end)
unfolding CarRepository.is_available
is_available-Reads car start end = exec-Reads _ λ db db' a h. ground arith

-- `Confirm` keeps the invariant, whether it succeeds or not, where it holds at the start and the
-- requests that commit before keep it.
pub confirmed-IsCoherent :
    (id : ℕ) (w : World) → Holds IsCoherent w → IsCoherent (confirm id w).1.db
unfolding confirm call
confirmed-IsCoherent id w h = confirm-IsCoherent id (yield w) (yield-Holds IsCoherent w h).0

-- `Fail` keeps the invariant, whether it succeeds or not, where it holds at the start and the requests
-- that commit before keep it.
pub failed-IsCoherent :
    (id : ℕ) (w : World) → Holds IsCoherent w → IsCoherent (fail_payment id w).1.db
unfolding fail_payment call
failed-IsCoherent id w h = fail_payment-IsCoherent id (yield w) (yield-Holds IsCoherent w h).0

-- `Refund` keeps the invariant, whether it succeeds or not, where it holds at the start and the
-- requests that commit before keep it.
pub refunded-IsCoherent : (id : ℕ) (w : World) → Holds IsCoherent w → IsCoherent (refund id w).1.db
unfolding refund call
refunded-IsCoherent id w h = refund-IsCoherent id (yield w) (yield-Holds IsCoherent w h).0

-- The guard of a new payment leaves two statuses.
payable :
    (r : RentalRow)
    → when
        (not (r.status == pending_payment) && not (r.status == approved))
        (new 400 "payment can be created only for approved rentals")
      ≡ none
    → (r.status ≡ approved) ⊎ (r.status ≡ pending_payment)
payable r h = elim (Bool-cases (r.status == approved)) [
  | inl e ↦ inl ((rental_status_eq.equal_iff r.status approved).0 e)
  | inr ne ↦ inr ((rental_status_eq.equal_iff r.status pending_payment).0 (ground arith))
]

new_payment-IsCoherent :
    (r : RentalRow) (input : PaymentInput) (w : World)
    → Holds IsCoherent w
    → (r.status ≡ approved) ⊎ (r.status ≡ pending_payment)
    → IsCoherent (call (create_for_rental (new_payment r input.method) r.status) w).1.db
unfolding call
new_payment-IsCoherent r input w h expected =
    create_for_rental-IsCoherent (new_payment r input.method) r.status (yield w)
      (yield-Holds IsCoherent w h).0 refl expected

booked-IsCoherent :
    (user : ℕ) (car : Car) (span : Span) (id : ℕ) (w : World)
    → Holds IsCoherent w
    → IsCoherent
        (call (create_with_availability (requested_row user id span car.daily_rate)) w).1.db
unfolding call
booked-IsCoherent user car span id w h =
    create_with_availability-IsCoherent (requested_row user id span car.daily_rate) (yield w)
      (yield-Holds IsCoherent w h).0 refl

-- `Create` of a payment keeps the invariant on every branch, where it holds at the start and the
-- requests that commit between its calls keep it: the rental's status is read, and read again when the
-- payment is inserted.
pub asked-IsCoherent :
    (user : ℕ) (role : UserRole) (input : PaymentInput) (w : World)
    → Holds IsCoherent w
    → IsCoherent (create user role input w).1.db
unfolding create
asked-IsCoherent user role input w h =
    let P : World → Type 0 = λ u. IsCoherent u.db in
    let last : Rental → Action Payment =
      λ rental. call (create_for_rental (new_payment rental.row input.method) rental.row.status) in
    let checked : Rental → Outcome Error Payment → Action Payment =
      λ rental existing. require (existing_error existing) >> last rental in
    let found : Rental → Action Payment =
      λ rental. call (catch (Repository.find_by_rental_id rental.row.id)) >>= checked rental in
    let payable_only : Rental → Action Payment = λ rental.
      require (
        when (not (rental.row.status == pending_payment) && not (rental.row.status == approved))
          (new 400 "payment can be created only for approved rentals"))
      >> found rental in
    let all : Rental → Action Payment = λ rental.
      require (when (not (may_access user role rental.row)) (base forbidden))
      >> payable_only rental in
    after_read IsCoherent (RentalRepository.find_by_id input.rental_id) all w
      (find_rental-Reads input.rental_id) h
      λ rental v hv. keep_require P _ (payable_only rental) v hv.0 λ allowed.
        keep_require P _ (found rental) v hv.0 λ pays.
          after_read IsCoherent (catch (Repository.find_by_rental_id rental.row.id))
            (checked rental) v (catch-Reads _ (find_payment-Reads rental.row.id)) hv
            λ existing u hu.
              keep_require P _ (last rental) u hu.0
                λ absent. new_payment-IsCoherent rental.row input u hu (payable rental.row pays)

-- `Create` of a rental keeps the invariant on every branch, where it holds at the start and the
-- requests that commit between its calls keep it.
pub booking-IsCoherent :
    (user : ℕ) (input : RentalInput) (w : World)
    → Holds IsCoherent w
    → IsCoherent (RentalService.create user input w).1.db
unfolding RentalService.create
booking-IsCoherent user input w h =
    let P : World → Type 0 = λ u. IsCoherent u.db in
    let last : Span → Car → Action RentalRow = λ span car.
      call (create_with_availability (requested_row user input.car_id span car.daily_rate)) in
    let free : Span → Car → Bool → Action RentalRow =
      λ span car available. require (when (not available) (base double_booking)) >> last span car in
    let rentable : Span → Car → Action RentalRow = λ span car.
      call (CarRepository.is_available input.car_id span.start span.end) >>= free span car in
    let known : Span → Car → Action RentalRow = λ span car.
      require (when (is_unavailable car.status) (base car_unavailable)) >> rentable span car in
    let dated : Span → Action RentalRow =
      λ span. call (CarRepository.find_by_id input.car_id) >>= known span in
    keep_bind P (lift (parse_rental_dates (today w) input.start_date input.end_date)) dated w h.0
      λ span v e p.
        after_read IsCoherent (CarRepository.find_by_id input.car_id) (known span) v
          (find_car-Reads input.car_id) (let same : w ≡ v = ap (λ r. r.1) e in rw (← same) h)
          λ car u hu. keep_require P _ (rentable span car) u hu.0 λ rentable_now.
            after_read IsCoherent (CarRepository.is_available input.car_id span.start span.end)
              (free span car) u (is_available-Reads input.car_id span.start span.end) hu
              λ available x hx.
                keep_require P _ (last span car) x hx.0
                  λ unbooked. booked-IsCoherent user car span input.car_id x hx
