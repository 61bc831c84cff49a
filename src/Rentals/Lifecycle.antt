-- ===== src/Rentals/Lifecycle.antt =====
-- `SyncLifecycle` of internal/repository/rental_repository.go, which internal/app/app.go runs at the
-- start and then every hour: what time alone does to rentals.
pub mod Settled
use rentcar_backend.Base.{
  ℕ, ◌/◌, ◌==◌, nat_eq, if◌then◌else◌, Bool, true, false, not, ◌&&◌, ◌||◌, leb, ltb, exists, count,
  update, touched, ok,
}
use rentcar_backend.Models.{
  RentalStatus, requested, approved, pending_payment, confirmed, active, RentalRow,
  rental_status_eq, PaymentStatus, pending, failed, Payment, payment_status_eq, InvoiceStatus,
  issued, void, Invoice, invoice_status_eq,
}
use rentcar_backend.Store.{
  Database, Action, ◌>>=◌, gets, exec, transaction, Statement, set_rental_status,
  set_invoice_status,
}
use rentcar_backend.Store.Constraints.{refuse_if, exclusion_violation, is_disjoint}
use rentcar_backend.Payments.Repository.{set_status}

pub record SyncResult : Type 0 where
  pub cancelled : ℕ
  pub activated : ℕ
  pub completed : ℕ
  pub failed_payments : ℕ
  pub voided_invoices : ℕ

-- `status IN ('requested', 'approved', 'pending_payment')`
abbrev pub is_unpaid_status : RentalStatus → Bool
is_unpaid_status requested = true
is_unpaid_status approved = true
is_unpaid_status pending_payment = true
is_unpaid_status _ = false

-- `status IN ('confirmed', 'active')`
abbrev pub is_running_status : RentalStatus → Bool
is_running_status confirmed = true
is_running_status active = true
is_running_status _ = false

module _ (day : ℕ) where
  -- the rows of `expired_unpaid`, `activated` and `completed`
  abbrev pub expired_unpaid : RentalRow → Bool
  expired_unpaid r = is_unpaid_status r.status && ltb r.end_date day

  abbrev pub activates : RentalRow → Bool
  activates r = r.status == confirmed && leb r.start_date day && leb day r.end_date

  abbrev pub completes : RentalRow → Bool
  completes r = is_running_status r.status && ltb r.end_date day

  -- `id IN (SELECT id FROM expired_unpaid)`
  abbrev pub expired_id : Database → ℕ → Bool
  expired_id db id = exists (λ r. r.id == id && expired_unpaid r) db.rentals

  abbrev pub fails : Database → Payment → Bool
  fails db p = expired_id db p.rental_id && p.status == pending

  abbrev pub voids : Database → Invoice → Bool
  voids db i = expired_id db i.rental_id && i.status == issued

  -- Every part of the statement reads the tables as they were, so a row is taken by the first part
  -- that fits it.
  abbrev pub advance : Database → ℕ → RentalRow → RentalRow
  advance db now r =
      if expired_id db r.id
      then set_rental_status RentalStatus.cancelled now r
      else if activates r
      then set_rental_status active now r
      else if completes r
      then set_rental_status RentalStatus.completed now r
      else r

  -- The one statement with its five updates.
  unfoldable pub sync_statement : ℕ → Statement SyncResult
  sync_statement now db =
      let rows = update (λ _. true) (advance db now) db.rentals in
      refuse_if (not (is_disjoint rows)) (exclusion_violation "rentals_no_double_booking") (
        ok (
          record {
            cancelled = count (λ r. expired_id db r.id) db.rentals;
            activated = count activates db.rentals;
            completed = count completes db.rentals;
            failed_payments = count (fails db) db.payments;
            voided_invoices = count (voids db) db.invoices;
          },
          record db {
            rentals = rows;
            payments = update (fails db) (set_status failed now) db.payments;
            invoices = update (voids db) (set_invoice_status void now) db.invoices;
          },
        ))

-- `SyncLifecycle` at a time in nanoseconds
unfoldable pub sync_lifecycle : ℕ → Action SyncResult
sync_lifecycle time =
    let day = time / 86_400_000_000_000 in
    transaction (do now ← gets (λ w. w.now); exec (sync_statement day now))
