-- ===== src/Tests/Run.antt =====
-- One booking after another step of its life, each table the result of the step before.
use rentcar_backend.Base.{◌+◌, ◌≡◌, refl, ok}
use rentcar_backend.Models.{customer, card}
use rentcar_backend.AppError.{map_cause, is_postgres_constraint}
use rentcar_backend.Store.{
  Database, call, transaction, exec, attempt, update_rentals, update_invoices,
}
use rentcar_backend.Store.Constraints.{is_disjoint}
use rentcar_backend.Payments.Repository as PaymentRepository
use rentcar_backend.Rentals.Repository
use rentcar_backend.Rentals.Service.Handlers.{approve}
use rentcar_backend.Payments.Service.{create, confirm}
use rentcar_backend.Coherence.{IsCoherent}
use rentcar_backend.Coherence.Rentals.{create_with_availability-IsCoherent}
use rentcar_backend.Coherence.Services.{approve-IsCoherent}
use rentcar_backend.Coherence.Interference.{asked-IsCoherent, confirmed-IsCoherent}
use rentcar_backend.Tests.Data.{may_first, no_rentals, no_rentals-IsCoherent, request_at, wanted}

abbrev pub booked : Database
booked = (Repository.create_with_availability wanted (request_at may_first no_rentals)).1.db

abbrev pub accepted : Database
accepted = (approve 1 (request_at may_first booked)).1.db

abbrev pub asked : Database
asked =
    (create 1 customer (record { rental_id = 1; method = card })
      (request_at (may_first + 1) accepted)).1.db

abbrev pub paid : Database
paid = (confirm 1 (request_at (may_first + 2) asked)).1.db

pub booked-IsCoherent : IsCoherent booked
booked-IsCoherent =
    create_with_availability-IsCoherent wanted (request_at may_first no_rentals)
      no_rentals-IsCoherent refl

pub accepted-IsCoherent : IsCoherent accepted
accepted-IsCoherent = approve-IsCoherent 1 (request_at may_first booked) refl booked-IsCoherent

pub asked-IsCoherent_run : IsCoherent asked
asked-IsCoherent_run =
    asked-IsCoherent 1 customer (record { rental_id = 1; method = card })
      (request_at (may_first + 1) accepted) (accepted-IsCoherent, tt)

pub paid-IsCoherent : IsCoherent paid
paid-IsCoherent =
    confirmed-IsCoherent 1 (request_at (may_first + 2) asked) (asked-IsCoherent_run, tt)

confirm_run : (confirm 1 (request_at (may_first + 2) asked)).0 ≡ ok tt
unfolding confirm PaymentRepository.confirm call transaction create Repository.find_by_id approve
    Repository.create_with_availability Repository.insert_rental is_disjoint
    Repository.update_status update_rentals PaymentRepository.find_by_rental_id map_cause
    PaymentRepository.create_for_rental PaymentRepository.insert PaymentRepository.insert_payment
    PaymentRepository.await_payment is_postgres_constraint Repository.join_rental attempt exec
    update_invoices
confirm_run = refl

pub confirmed_run : (PaymentRepository.confirm 1 (request_at (may_first + 2) asked)).0 ≡ ok tt
unfolding confirm PaymentRepository.confirm call transaction create Repository.find_by_id approve
    Repository.create_with_availability Repository.insert_rental is_disjoint
    Repository.update_status update_rentals PaymentRepository.find_by_rental_id map_cause
    PaymentRepository.create_for_rental PaymentRepository.insert PaymentRepository.insert_payment
    PaymentRepository.await_payment is_postgres_constraint Repository.join_rental attempt exec
    update_invoices
confirmed_run = refl

pub failed_run : (PaymentRepository.fail_payment 1 (request_at (may_first + 2) asked)).0 ≡ ok tt
unfolding confirm PaymentRepository.fail_payment call transaction create Repository.find_by_id
    approve Repository.create_with_availability Repository.insert_rental is_disjoint
    Repository.update_status update_rentals PaymentRepository.find_by_rental_id map_cause
    PaymentRepository.create_for_rental PaymentRepository.insert PaymentRepository.insert_payment
    PaymentRepository.await_payment is_postgres_constraint Repository.join_rental attempt exec
    update_invoices
failed_run = refl

pub refunded_run : (PaymentRepository.refund 1 (request_at (may_first + 3) paid)).0 ≡ ok tt
unfolding confirm PaymentRepository.confirm PaymentRepository.refund call transaction create
    Repository.find_by_id approve Repository.create_with_availability Repository.insert_rental
    is_disjoint Repository.update_status update_rentals PaymentRepository.find_by_rental_id
    map_cause PaymentRepository.create_for_rental PaymentRepository.insert
    PaymentRepository.insert_payment PaymentRepository.await_payment is_postgres_constraint
    Repository.join_rental attempt exec update_invoices
refunded_run = refl
