-- ===== src/Web/Serving/Quiet.antt =====
-- The calls of the repositories of rentals and payments, and other requests.
use rentcar_backend.Base.{ℕ, arith, if◌then◌else◌, ◌==◌, Bool, true, false, Outcome, ok, err}
use rentcar_backend.AppError.{Cause}
use rentcar_backend.Models.{
  RentalRow, RentalStatus, approved, Payment, PaymentStatus, rental_status_eq,
}
use rentcar_backend.Store.{Database, Statement, Action, pure, fail, attempt}
use rentcar_backend.Store.Calm.{
  Keeps, Anything, keeps_pure, keeps_fail, keeps_bind, keeps_require, keeps_gets, quiet_exec,
  quiet_transaction,
}
use rentcar_backend.Rentals.Repository as RentalRepository
use rentcar_backend.Rentals.Lifecycle.{sync_lifecycle}
use rentcar_backend.Payments.Repository as PaymentRepository
use rentcar_backend.Payments.Repository.{settle_row, settle_error, insert_error}

module _ {P : Database → Type 0} {A : Type 0} where
  pub keeps_if : (b : Bool) {m k : Action A} → Keeps P m → Keeps P k → Keeps P (if b then m else k)
  keeps_if true h l = h
  keeps_if false h l = l

pub quiet_attempt : {A : Type 0} (s : Statement A) → Keeps Anything (attempt s)
unfolding attempt
quiet_attempt s = record { keep = λ w h. (ground arith, tt) }

ruleset quiet = (
  keeps_pure, keeps_fail, keeps_bind, keeps_require, keeps_gets, quiet_exec, quiet_attempt,
  keeps_if,
)

pub create_with_availability-quiet :
    (r : RentalRow) → Keeps Anything (RentalRepository.create_with_availability r)
unfolding RentalRepository.create_with_availability
create_with_availability-quiet r = quiet_transaction _ (search quiet depth 30)

pub update_status-quiet :
    (id : ℕ) (s : RentalStatus) → Keeps Anything (RentalRepository.update_status id s)
unfolding RentalRepository.update_status
update_status-quiet id s = quiet_transaction _ (search quiet depth 30)

pub cancel-quiet : (id : ℕ) → Keeps Anything (RentalRepository.cancel id)
unfolding RentalRepository.cancel
cancel-quiet id = quiet_transaction _ (search quiet depth 30)

pub sync_lifecycle-quiet : (time : ℕ) → Keeps Anything (sync_lifecycle time)
unfolding sync_lifecycle
sync_lifecycle-quiet time = quiet_transaction _ (search quiet depth 30)

settled :
    (r : Outcome Cause ℕ)
    → Keeps Anything (elim r [ ok x ↦ pure x | err c ↦ fail (settle_error c) ])
settled (ok x) = keeps_pure x
settled (err c) = keeps_fail (settle_error c)

settle_row-quiet :
    (id : ℕ) (s : PaymentStatus) (f : Payment → Payment) → Keeps Anything (settle_row id s f)
settle_row-quiet id s f = keeps_bind (quiet_attempt _) settled

inserted :
    (r : Outcome Cause Payment)
    → Keeps Anything (elim r [ ok x ↦ pure x | err c ↦ fail (insert_error c) ])
inserted (ok x) = keeps_pure x
inserted (err c) = keeps_fail (insert_error c)

insert-quiet : (p : Payment) (now : ℕ) → Keeps Anything (PaymentRepository.insert p now)
unfolding PaymentRepository.insert
insert-quiet p now = keeps_bind (quiet_attempt _) inserted

await_payment-quiet :
    (id : ℕ) (s : RentalStatus) (now : ℕ)
    → Keeps Anything (PaymentRepository.await_payment id s now)
unfolding PaymentRepository.await_payment
await_payment-quiet id s now = keeps_if (s == approved) (search quiet depth 30) (keeps_pure tt)

ruleset settling = (quiet, settle_row-quiet, insert-quiet, await_payment-quiet)

pub create_for_rental-quiet :
    (p : Payment) (s : RentalStatus) → Keeps Anything (PaymentRepository.create_for_rental p s)
unfolding PaymentRepository.create_for_rental
create_for_rental-quiet p s = quiet_transaction _ (search settling depth 30)

pub confirm-quiet : (id : ℕ) → Keeps Anything (PaymentRepository.confirm id)
unfolding PaymentRepository.confirm
confirm-quiet id = quiet_transaction _ (search settling depth 30)

pub fail_payment-quiet : (id : ℕ) → Keeps Anything (PaymentRepository.fail_payment id)
unfolding PaymentRepository.fail_payment
fail_payment-quiet id = quiet_transaction _ (search settling depth 30)

pub refund-quiet : (id : ℕ) → Keeps Anything (PaymentRepository.refund id)
unfolding PaymentRepository.refund
refund-quiet id = quiet_transaction _ (search settling depth 30)
