-- ===== src/Rentals/Lifecycle/Settled.antt =====
-- What a run of `SyncLifecycle` of internal/repository/rental_repository.go does and leaves to do.
use rentcar_backend.Base.{
  ℕ, ◌≤◌, ◌<◌, ◌/◌, ◌==◌, nat_eq, ◌≡◌, true, false, ◌&&◌, All, count, update, ok, arith, All-change,
  All-weaken, All-of, All-exists, exists_none, count_none, update_same, update_none,
}
use rentcar_backend.Models.{
  requested, approved, pending_payment, confirmed, active, RentalRow, payment_status_eq,
  invoice_status_eq, failed, void, rental_status_eq,
}
use rentcar_backend.Store.{Database, World, transaction, set_invoice_status}
use rentcar_backend.Store.Constraints.{is_disjoint}
use rentcar_backend.Payments.Repository.{set_status}
use rentcar_backend.Rentals.Lifecycle.{
  SyncResult, expired_unpaid, activates, completes, expired_id, fails, voids, advance,
  sync_statement, sync_lifecycle,
}

-- No part of the statement takes the row.
abbrev pub IsUntaken : ℕ → RentalRow → Type 0
IsUntaken day r =
    (expired_unpaid day r ≡ false) × (activates day r ≡ false) × (completes day r ≡ false)

advance-IsUntaken :
    (day now : ℕ) (db : Database) (r : RentalRow)
    → (expired_unpaid day r ≡ true → expired_id day db r.id ≡ true)
    → IsUntaken day (advance day db now r)
advance-IsUntaken day now db r h = ground arith

-- A run that succeeds is a run of its statement.
pub sync_lifecycle-ok :
    (time : ℕ) (w : World) (res : SyncResult)
    → (sync_lifecycle time w).0 ≡ ok res
    → sync_statement (time / 86_400_000_000_000) w.now w.db ≡ ok (res, (sync_lifecycle time w).1.db)
unfolding sync_lifecycle transaction
sync_lifecycle-ok time w res h = ground arith

-- What the statement has done to the three tables, and how many rows it took.
pub record Synced (day now : ℕ) (db : Database) (res : SyncResult) (db' : Database) : Type 0 where
  pub disjoint : is_disjoint (update (λ _. true) (advance day db now) db.rentals) ≡ true
  pub counts : res ≡ record {
    cancelled = count (λ r. expired_id day db r.id) db.rentals;
    activated = count (activates day) db.rentals;
    completed = count (completes day) db.rentals;
    failed_payments = count (fails day db) db.payments;
    voided_invoices = count (voids day db) db.invoices;
  }
  pub tables : db' ≡ record db {
    rentals = update (λ _. true) (advance day db now) db.rentals;
    payments = update (fails day db) (set_status failed now) db.payments;
    invoices = update (voids day db) (set_invoice_status void now) db.invoices;
  }

pub sync_statement_effect :
    (day now : ℕ) (db : Database) (res : SyncResult) (db' : Database)
    → sync_statement day now db ≡ ok (res, db')
    → Synced day now db res db'
unfolding sync_statement
sync_statement_effect day now db res db' h = ground arith

Synced-IsUntaken :
    (day now : ℕ) (db : Database) (res : SyncResult) (db' : Database)
    → Synced day now db res db'
    → All (IsUntaken day) db'.rentals
Synced-IsUntaken day now db res db' s = rw s.tables (
    All-change (λ r. expired_unpaid day r ≡ true → expired_id day db r.id ≡ true) (IsUntaken day)
      (λ _. true) (advance day db now) db.rentals (λ r h. advance-IsUntaken day now db r h)
      (All-exists (λ r x. x.id == r.id && expired_unpaid day x) (expired_unpaid day) db.rentals
        (λ r h. ground arith)))

abbrev pub nothing_done : SyncResult
nothing_done = record {
  cancelled = 0;
  activated = 0;
  completed = 0;
  failed_payments = 0;
  voided_invoices = 0;
}

module _ (day now : ℕ) (db : Database) (h : All (IsUntaken day) db.rentals) where
  no_expired : (id : ℕ) → expired_id day db id ≡ false
  no_expired id =
      exists_none _ db.rentals
        (All-weaken (IsUntaken day) _ db.rentals (λ r s. ground (arith, s.0)) h)

  same_rentals : update (λ _. true) (advance day db now) db.rentals ≡ db.rentals
  same_rentals =
      update_same (λ _. true) (advance day db now) db.rentals
        (All-weaken (IsUntaken day) _ db.rentals (λ r s. ground (arith, s, no_expired r.id)) h)

  no_cancelled : count (λ r. expired_id day db r.id) db.rentals ≡ 0
  no_cancelled = count_none _ db.rentals (All-of _ db.rentals (λ r. no_expired r.id))

  no_activated : count (activates day) db.rentals ≡ 0
  no_activated = count_none _ db.rentals (All-weaken (IsUntaken day) _ db.rentals (λ r s. s.1) h)

  no_completed : count (completes day) db.rentals ≡ 0
  no_completed = count_none _ db.rentals (All-weaken (IsUntaken day) _ db.rentals (λ r s. s.2) h)

  no_failed : count (fails day db) db.payments ≡ 0
  no_failed =
      count_none _ db.payments (All-of _ db.payments (λ p. ground (arith, no_expired p.rental_id)))

  no_voided : count (voids day db) db.invoices ≡ 0
  no_voided =
      count_none _ db.invoices (All-of _ db.invoices (λ i. ground (arith, no_expired i.rental_id)))

  settled_quiet :
      (res : SyncResult) (db' : Database)
      → Synced day now db res db'
      → (res ≡ nothing_done) × (db' ≡ db)
  settled_quiet res db' s = (
    rw s.counts (rw (no_cancelled, no_activated, no_completed, no_failed, no_voided)),
    rw s.tables (
        rw (
          same_rentals,
          update_none _ (set_status failed now) db.payments no_failed,
          update_none _ (set_invoice_status void now) db.invoices no_voided,
        )),
  )

sync-IsUntaken :
    (time : ℕ) (w : World) (res : SyncResult)
    → (sync_lifecycle time w).0 ≡ ok res
    → All (IsUntaken (time / 86_400_000_000_000)) (sync_lifecycle time w).1.db.rentals
sync-IsUntaken time w res h =
    Synced-IsUntaken _ w.now w.db res _
      (sync_statement_effect _ w.now w.db res _ (sync_lifecycle-ok time w res h))

-- Where a day puts a rental, by its status: one that is open in any of five statuses has not ended, and one that is
-- confirmed has not begun.
pub record IsSettled (day : ℕ) (r : RentalRow) : Type 0 where
  pub requested_open : r.status ≡ requested → day ≤ r.end_date
  pub approved_open : r.status ≡ approved → day ≤ r.end_date
  pub pending_open : r.status ≡ pending_payment → day ≤ r.end_date
  pub confirmed_ahead : r.status ≡ confirmed → (day < r.start_date) × (day ≤ r.end_date)
  pub active_open : r.status ≡ active → day ≤ r.end_date

untaken-IsSettled : (day : ℕ) (r : RentalRow) → IsUntaken day r → IsSettled day r
untaken-IsSettled day r h = record {
  requested_open = λ e. ground (arith, e, h.0);
  approved_open = λ e. ground (arith, e, h.0);
  pending_open = λ e. ground (arith, e, h.0);
  confirmed_ahead = λ e. (ground (arith, e, h.1, h.2), ground (arith, e, h.2));
  active_open = λ e. ground (arith, e, h.2);
}

-- After a run that succeeds, no rental that is requested, approved, awaiting its payment, confirmed or active has
-- ended before the day, and none that is confirmed has begun.
pub sync_settles :
    (time : ℕ) (w : World) (res : SyncResult)
    → (sync_lifecycle time w).0 ≡ ok res
    → All (IsSettled (time / 86_400_000_000_000)) (sync_lifecycle time w).1.db.rentals
sync_settles time w res h =
    All-weaken _ _ (sync_lifecycle time w).1.db.rentals
      (untaken-IsSettled (time / 86_400_000_000_000)) (sync-IsUntaken time w res h)

-- A second run on the same day, whenever it comes, takes no row and changes no table.
pub sync_idempotent :
    (time again : ℕ) (w v : World) (res res' : SyncResult)
    → again / 86_400_000_000_000 ≡ time / 86_400_000_000_000
    → (sync_lifecycle time w).0 ≡ ok res
    → v.db ≡ (sync_lifecycle time w).1.db
    → (sync_lifecycle again v).0 ≡ ok res'
    → (res' ≡ nothing_done) × ((sync_lifecycle again v).1.db ≡ v.db)
sync_idempotent time again w v res res' same_day h follows h' =
    settled_quiet (again / 86_400_000_000_000) v.now v.db
      (rw (follows, same_day) (sync-IsUntaken time w res h)) res' _
      (sync_statement_effect _ v.now v.db res' _ (sync_lifecycle-ok again v res' h'))
