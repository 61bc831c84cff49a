-- ===== src/Web/Serving/Services.antt =====
-- The services of rentals and payments, and the invariant of the two tables.
use rentcar_backend.Base.{ℕ}
use rentcar_backend.Models.{RentalStatus, UserRole, rental_status_eq}
use rentcar_backend.Store.{Database}
use rentcar_backend.Store.Calm.{
  Keeps, Anything, keeps_pure, keeps_fail, keeps_bind, keeps_require, keeps_outcome, keeps_gets,
  keeps_call, keeps_catch, keeps_read, keeps_alone,
}
use rentcar_backend.Rentals.Repository as RentalRepository
use rentcar_backend.Rentals.Lifecycle.{sync_lifecycle}
use rentcar_backend.Rentals.Service.Handlers as RentalService
use rentcar_backend.Rentals.Service.Handlers.{RentalInput}
use rentcar_backend.Cars.Repository as CarRepository
use rentcar_backend.Payments.Repository as PaymentRepository
use rentcar_backend.Payments.Service as PaymentService
use rentcar_backend.Payments.Service.{PaymentInput}
use rentcar_backend.Coherence.{IsCoherent}
use rentcar_backend.Coherence.Interference.{
  find_rental-Reads, find_payment-Reads, find_car-Reads, is_available-Reads, booking-IsCoherent,
  asked-IsCoherent, confirmed-IsCoherent, failed-IsCoherent, refunded-IsCoherent,
}
use rentcar_backend.Coherence.Lifecycle.{sync_lifecycle-IsCoherent}
use rentcar_backend.Coherence.Services.{
  update_status-IsCoherent_alone, approve-IsCoherent, reject-IsCoherent, customer_cancel-IsCoherent,
}
use rentcar_backend.Web.Serving.Quiet.{
  keeps_if, create_with_availability-quiet, update_status-quiet, cancel-quiet, sync_lifecycle-quiet,
  create_for_rental-quiet, confirm-quiet, fail_payment-quiet, refund-quiet,
}

module _ {P : Database → Type 0} where
  pub find_rental-keeps : (id : ℕ) → Keeps P (RentalRepository.find_by_id id)
  find_rental-keeps id = keeps_read _ (find_rental-Reads id)

  pub find_payment_of-keeps : (id : ℕ) → Keeps P (PaymentRepository.find_by_rental_id id)
  find_payment_of-keeps id = keeps_read _ (find_payment-Reads id)

  pub find_car-keeps : (id : ℕ) → Keeps P (CarRepository.find_by_id id)
  find_car-keeps id = keeps_read _ (find_car-Reads id)

  pub is_available-keeps : (car start end : ℕ) → Keeps P (CarRepository.is_available car start end)
  is_available-keeps car start end = keeps_read _ (is_available-Reads car start end)

ruleset calm = (
  keeps_pure, keeps_fail, keeps_bind, keeps_require, keeps_outcome, keeps_gets, keeps_call,
  keeps_catch, keeps_if, find_rental-keeps, find_payment_of-keeps, find_car-keeps,
  is_available-keeps, create_with_availability-quiet, update_status-quiet, cancel-quiet,
  create_for_rental-quiet, confirm-quiet, fail_payment-quiet, refund-quiet,
)

quiet_booking : (user : ℕ) (input : RentalInput) → Keeps Anything (RentalService.create user input)
unfolding RentalService.create
quiet_booking user input = search calm depth 30

pub booking-keeps :
    (user : ℕ) (input : RentalInput) → Keeps IsCoherent (RentalService.create user input)
booking-keeps user input =
    keeps_alone IsCoherent (RentalService.create user input) (quiet_booking user input)
      (λ w alone h. booking-IsCoherent user input w (h, rw alone tt))

quiet_update_status :
    (id : ℕ) (next : RentalStatus) → Keeps Anything (RentalService.update_status id next)
unfolding RentalService.update_status
quiet_update_status id next = search calm depth 30

pub update_status-keeps :
    (id : ℕ) (next : RentalStatus) → Keeps IsCoherent (RentalService.update_status id next)
update_status-keeps id next =
    keeps_alone IsCoherent (RentalService.update_status id next) (quiet_update_status id next)
      (update_status-IsCoherent_alone id next)

quiet_approve : (id : ℕ) → Keeps Anything (RentalService.approve id)
unfolding RentalService.approve
quiet_approve id = search calm depth 30

pub approve-keeps : (id : ℕ) → Keeps IsCoherent (RentalService.approve id)
approve-keeps id =
    keeps_alone IsCoherent (RentalService.approve id) (quiet_approve id) (approve-IsCoherent id)

quiet_reject : (id : ℕ) → Keeps Anything (RentalService.reject id)
unfolding RentalService.reject
quiet_reject id = search calm depth 30

pub reject-keeps : (id : ℕ) → Keeps IsCoherent (RentalService.reject id)
reject-keeps id =
    keeps_alone IsCoherent (RentalService.reject id) (quiet_reject id) (reject-IsCoherent id)

quiet_cancel :
    (user : ℕ) (role : UserRole) (id : ℕ) → Keeps Anything (RentalService.cancel user role id)
unfolding RentalService.cancel
quiet_cancel user role id = search calm depth 30

pub cancel-keeps :
    (user : ℕ) (role : UserRole) (id : ℕ) → Keeps IsCoherent (RentalService.cancel user role id)
cancel-keeps user role id =
    keeps_alone IsCoherent (RentalService.cancel user role id) (quiet_cancel user role id)
      (customer_cancel-IsCoherent user role id)

quiet_asking :
    (user : ℕ) (role : UserRole) (input : PaymentInput)
    → Keeps Anything (PaymentService.create user role input)
unfolding PaymentService.create
quiet_asking user role input = search calm depth 30

pub asking-keeps :
    (user : ℕ) (role : UserRole) (input : PaymentInput)
    → Keeps IsCoherent (PaymentService.create user role input)
asking-keeps user role input =
    keeps_alone IsCoherent (PaymentService.create user role input) (quiet_asking user role input)
      (λ w alone h. asked-IsCoherent user role input w (h, rw alone tt))

quiet_confirming : (id : ℕ) → Keeps Anything (PaymentService.confirm id)
unfolding PaymentService.confirm
quiet_confirming id = search calm depth 30

pub confirming-keeps : (id : ℕ) → Keeps IsCoherent (PaymentService.confirm id)
confirming-keeps id =
    keeps_alone IsCoherent (PaymentService.confirm id) (quiet_confirming id)
      (λ w alone h. confirmed-IsCoherent id w (h, rw alone tt))

quiet_failing : (id : ℕ) → Keeps Anything (PaymentService.fail_payment id)
unfolding PaymentService.fail_payment
quiet_failing id = search calm depth 30

pub failing-keeps : (id : ℕ) → Keeps IsCoherent (PaymentService.fail_payment id)
failing-keeps id =
    keeps_alone IsCoherent (PaymentService.fail_payment id) (quiet_failing id)
      (λ w alone h. failed-IsCoherent id w (h, rw alone tt))

quiet_refunding : (id : ℕ) → Keeps Anything (PaymentService.refund id)
unfolding PaymentService.refund
quiet_refunding id = search calm depth 30

pub refunding-keeps : (id : ℕ) → Keeps IsCoherent (PaymentService.refund id)
refunding-keeps id =
    keeps_alone IsCoherent (PaymentService.refund id) (quiet_refunding id)
      (λ w alone h. refunded-IsCoherent id w (h, rw alone tt))

pub sync_lifecycle-keeps : (time : ℕ) → Keeps IsCoherent (sync_lifecycle time)
sync_lifecycle-keeps time =
    keeps_alone IsCoherent (sync_lifecycle time) (sync_lifecycle-quiet time)
      (λ w alone h. sync_lifecycle-IsCoherent time w h)
