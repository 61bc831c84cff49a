-- ===== src/Tests/Examples.antt =====
-- The theorems on each component at concrete tables and requests.
use Prim.Native.String.{◌++◌}
use rentcar_backend.Invoices.Service.{invoice_number}
use rentcar_backend.Base.{
  exists, find, ◌==◌, nat_eq, ◌≢◌, ◌↔◌, ℕ, ◌+◌, ◌*◌, ◌/◌, ◌≡◌, refl, true, none, some, ok, [], ◌∷◌,
  All,
}
use rentcar_backend.Models.{
  in_progress, RentalStatus, requested, approved, confirmed, customer, RentalRow, Payment, Rental,
}
use rentcar_backend.Store.{
  Database, World, transaction, exec, attempt, call, today, update_rentals, update_invoices,
}
use rentcar_backend.Store.Constraints.{is_disjoint, find_rental}
use rentcar_backend.Rentals.Repository
use rentcar_backend.Rentals.Bookings.{
  booking_outcome, create_with_availability_answer, sync_lifecycle_runs,
}
use rentcar_backend.Rentals.Lifecycle.{SyncResult, sync_lifecycle, sync_statement}
use rentcar_backend.Rentals.Lifecycle.Settled.{
  IsSettled, nothing_done, sync_settles, sync_idempotent,
}
use rentcar_backend.Rentals.Service.Status.{validate_status_change}
use rentcar_backend.Rentals.Service.Moves.{Move, validated_moves}
use rentcar_backend.Rentals.Service.Cancelling.{IsCancellable, cancel_lem}
use rentcar_backend.Rentals.Service.Handlers as RentalService
use rentcar_backend.Rentals.Service.Handlers.{RentalInput}
use rentcar_backend.Payments.Repository as PaymentRepository
use rentcar_backend.Maintenance.Repository as MaintenanceRepository
use rentcar_backend.Maintenance.Service.{has_active_maintenance, any_in_status}
use rentcar_backend.Maintenance.Synced.{holds_car, has_active_maintenance_lem}
use rentcar_backend.Listing.{page_rows, total_pages}
use rentcar_backend.Tests.Data.{
  may_first, day_ns, cobalt, wanted, no_rentals, one_rental, request_at,
}
use rentcar_backend.Payments.Finality.{confirmed_once, failed_once, refunded_once}
use rentcar_backend.Tests.Run.{confirmed_run, failed_run, refunded_run, asked, paid}

-- A confirmed rental, on its first day.
abbrev first_day : ℕ
first_day = (may_first + 9) * day_ns

abbrev pickup : World
pickup = request_at (may_first + 9) (one_rental confirmed)

abbrev one_activated : SyncResult
one_activated = record {
  cancelled = 0;
  activated = 1;
  completed = 0;
  failed_payments = 0;
  voided_invoices = 0;
}

pickup_run : (sync_lifecycle first_day pickup).0 ≡ ok one_activated
unfolding sync_lifecycle transaction exec attempt sync_statement is_disjoint
pickup_run = refl

again_run : (sync_lifecycle first_day (sync_lifecycle first_day pickup).1).0 ≡ ok nothing_done
unfolding sync_lifecycle transaction exec attempt sync_statement is_disjoint
again_run = refl

sync_settles_example :
    All (IsSettled (first_day / 86_400_000_000_000)) (sync_lifecycle first_day pickup).1.db.rentals
sync_settles_example = sync_settles first_day pickup one_activated pickup_run

sync_idempotent_example :
    (nothing_done ≡ nothing_done)
    × ((sync_lifecycle first_day (sync_lifecycle first_day pickup).1).1.db
        ≡ (sync_lifecycle first_day pickup).1.db)
sync_idempotent_example =
    sync_idempotent first_day first_day pickup (sync_lifecycle first_day pickup).1 one_activated
      nothing_done refl pickup_run refl again_run

disjoint_run : is_disjoint (one_rental requested).rentals ≡ true
unfolding is_disjoint
disjoint_run = refl

pickup_disjoint : is_disjoint pickup.db.rentals ≡ true
unfolding is_disjoint
pickup_disjoint = refl

create_with_availability_answer_example :
    (
      (Repository.create_with_availability wanted (request_at may_first (one_rental requested))).0,
      (Repository.create_with_availability wanted
          (request_at may_first (one_rental requested))).1.db,
    )
    ≡ booking_outcome cobalt wanted (may_first * day_ns + 43_200_000_000_000) (one_rental requested)
create_with_availability_answer_example =
    create_with_availability_answer wanted cobalt (request_at may_first (one_rental requested)) refl
      disjoint_run (record { ordered = refl; amount = refl; status = refl; known = refl }) refl

sync_lifecycle_runs_example : (res : SyncResult) × ((sync_lifecycle first_day pickup).0 ≡ ok res)
sync_lifecycle_runs_example = sync_lifecycle_runs first_day pickup refl pickup_disjoint

abbrev asked_for : Rental
asked_for = record { row = record wanted { id = 1 }; payment = none; user = none; car = none }

validated_moves_example :
    (validate_status_change asked_for approved ≡ none) ↔ Move none requested approved
validated_moves_example = validated_moves asked_for approved

cancel_run :
    (RentalService.cancel 1 customer 1 (request_at may_first (one_rental requested))).0 ≡ ok tt
unfolding RentalService.cancel RentalService.cancel_guard call Repository.find_by_id
    Repository.cancel Repository.join_rental transaction exec attempt today is_disjoint
    update_rentals update_invoices
cancel_run = refl

cancel_lem_example :
    (r : RentalRow) × (find_rental 1 (one_rental requested) ≡ some r)
    × IsCancellable may_first 1 customer r
        (find (λ (p : Payment). p.rental_id == r.id) (one_rental requested).payments)
    × ((RentalService.cancel 1 customer 1 (request_at may_first (one_rental requested))).1.db
        ≡ record (one_rental requested) {
          rentals =
              record wanted {
                id = 1;
                status = RentalStatus.cancelled;
                updated_at = may_first * day_ns + 43_200_000_000_000;
              }
              ∷ [];
        })
cancel_lem_example =
    cancel_lem 1 customer 1 (request_at may_first (one_rental requested)) refl cancel_run

number_run :
    invoice_number (739_372 * day_ns) 1_234_567 ++ invoice_number (366 * day_ns) 42
    ≡ "INV-2024-1234567INV-1-000042"
unfolding invoice_number
number_run = refl

confirmed_once_example :
    ((PaymentRepository.confirm 1 (
        request_at
          (may_first + 3)
          (PaymentRepository.confirm 1 (request_at (may_first + 2) asked)).1.db)).0
      ≢ ok tt)
    × ((PaymentRepository.fail_payment 1 (
          request_at
            (may_first + 3)
            (PaymentRepository.confirm 1 (request_at (may_first + 2) asked)).1.db)).0
        ≢ ok tt)
confirmed_once_example =
    confirmed_once 1 (request_at (may_first + 2) asked)
      (request_at (may_first + 3)
        (PaymentRepository.confirm 1 (request_at (may_first + 2) asked)).1.db)
      confirmed_run refl

failed_once_example :
    ((PaymentRepository.confirm 1 (
        request_at
          (may_first + 3)
          (PaymentRepository.fail_payment 1 (request_at (may_first + 2) asked)).1.db)).0
      ≢ ok tt)
    × ((PaymentRepository.fail_payment 1 (
          request_at
            (may_first + 3)
            (PaymentRepository.fail_payment 1 (request_at (may_first + 2) asked)).1.db)).0
        ≢ ok tt)
failed_once_example =
    failed_once 1 (request_at (may_first + 2) asked)
      (request_at (may_first + 3)
        (PaymentRepository.fail_payment 1 (request_at (may_first + 2) asked)).1.db)
      failed_run refl

refunded_once_example :
    (PaymentRepository.refund 1 (
      request_at
        (may_first + 4)
        (PaymentRepository.refund 1 (request_at (may_first + 3) paid)).1.db)).0
    ≢ ok tt
refunded_once_example =
    refunded_once 1 (request_at (may_first + 3) paid)
      (request_at (may_first + 4)
        (PaymentRepository.refund 1 (request_at (may_first + 3) paid)).1.db)
      refunded_run refl

-- A car in the workshop.
abbrev in_workshop : Database
in_workshop = record no_rentals {
  maintenances =
      record {
        id = 1;
        car_id = 1;
        start_date = may_first;
        end_date = may_first + 2;
        reason = "oil";
        status = in_progress;
        notes = "";
        created_by = none;
        created_at = 0;
        updated_at = 0;
      }
      ∷ [];
}

active_run : (has_active_maintenance 1 (request_at may_first in_workshop)).0 ≡ ok true
unfolding has_active_maintenance any_in_status call MaintenanceRepository.list page_rows exec
    attempt total_pages
active_run = refl

has_active_maintenance_lem_example :
    (true ≡ exists (holds_car 1) in_workshop.maintenances)
    × ((has_active_maintenance 1 (request_at may_first in_workshop)).1.db ≡ in_workshop)
    × ((has_active_maintenance 1 (request_at may_first in_workshop)).1.others ≡ [])
has_active_maintenance_lem_example =
    has_active_maintenance_lem 1 true (request_at may_first in_workshop) refl refl active_run
