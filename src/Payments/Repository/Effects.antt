-- ===== src/Payments/Repository/Effects.antt =====
-- What a successful call of each handler of the payment repository has done to the tables.
use rentcar_backend.Base.{
  ℕ, ◌==◌, nat_eq, ◌<◌, ◌≡◌, Bool, ◌&&◌, not, some, ok, find, count, update, arith, inl, inr,
  Option-cases, ◌∙◌, ap, ◌∷◌, suc, exists, true, false, if◌then◌else◌,
}
use rentcar_backend.Models.{
  RentalStatus, approved, RentalRow, pending_payment, confirmed, rental_status_eq, PaymentStatus,
  pending, failed, refunded, Payment, payment_status_eq, void,
}
use rentcar_backend.Store.{
  Database, World, exec, attempt, transaction, update_rentals, update_invoices, set_rental_status,
  set_invoice_status,
}
use rentcar_backend.Store.Atomic.{IsAtomic, transaction-IsAtomic}
use rentcar_backend.Store.Inversion.{transaction-ok}
use rentcar_backend.Store.Constraints.{find_rental, is_some}
use rentcar_backend.Rentals.Repository.{is_open_invoice}
use rentcar_backend.Payments.Repository.{
  has_status, set_paid, set_status, confirm, fail_payment, refund, is_unvoided_invoice, inserted,
  default_status, insert_payment, create_for_rental, create_steps, insert, await_payment,
  select_rental_status, is_approved_row,
}

abbrev pub waits : ℕ → RentalRow → Bool
waits rental r = r.id == rental && r.status == pending_payment

abbrev pub is_row : ℕ → RentalRow → Bool
is_row rental r = r.id == rental

abbrev pub is_unfinished_row : ℕ → RentalRow → Bool
is_unfinished_row rental r = r.id == rental && not (r.status == RentalStatus.completed)

pub confirm-IsAtomic : (id : ℕ) → IsAtomic (confirm id)
unfolding confirm
confirm-IsAtomic id = transaction-IsAtomic _

pub fail_payment-IsAtomic : (id : ℕ) → IsAtomic (fail_payment id)
unfolding fail_payment
fail_payment-IsAtomic id = transaction-IsAtomic _

pub refund-IsAtomic : (id : ℕ) → IsAtomic (refund id)
unfolding refund
refund-IsAtomic id = transaction-IsAtomic _

-- What an insertion has found, and the row that it adds.
pub record Inserted (p row : Payment) (now : ℕ) (db db' : Database) : Type 0 where
  pub row_is : row ≡ inserted p now db
  pub first : exists (λ x. x.rental_id == p.rental_id) db.payments ≡ false
  pub owner_known : is_some (find_rental p.rental_id db) ≡ true
  pub added :
      db'
      ≡ record db { payments = inserted p now db ∷ db.payments; next_payment = suc db.next_payment }

insert_payment_effect :
    (p row : Payment) (now : ℕ) (db db' : Database)
    → insert_payment p now db ≡ ok (row, db')
    → Inserted p row now db db'
unfolding insert_payment
insert_payment_effect p row now db db' h = ground arith

pub create_for_rental-IsAtomic : (p : Payment) (s : RentalStatus) → IsAtomic (create_for_rental p s)
unfolding create_for_rental
create_for_rental-IsAtomic p s = transaction-IsAtomic _

abbrev pub awaiting : ℕ → RentalStatus → ℕ → Database → Database
awaiting rental s now mid =
    if s == approved
    then record mid {
      rentals = update (is_approved_row rental) (set_rental_status pending_payment now) mid.rentals;
    }
    else mid

insert_effect :
    (p row : Payment) (now : ℕ) (w : World)
    → (insert p now w).0 ≡ ok row
    → insert_payment p now w.db ≡ ok (row, (insert p now w).1.db)
unfolding insert attempt
insert_effect p row now w h = ground arith

await_payment_effect :
    (rental : ℕ) (s : RentalStatus) (now : ℕ) (w : World)
    → (await_payment rental s now w).0 ≡ ok tt
    → (await_payment rental s now w).1.db ≡ awaiting rental s now w.db
unfolding await_payment exec update_rentals
await_payment_effect rental s now w h = ground arith

-- The parts of the body that have run.
create_steps_parts :
    (p row : Payment) (s : RentalStatus) (u : World) (now : ℕ)
    → u.now ≡ now
    → (create_steps p s u).0 ≡ ok row
    → (r : RentalRow) × (v : World) × (find_rental p.rental_id u.db ≡ some r)
      × (r.status ≡ s)
      × (v.db ≡ u.db)
      × ((insert p now v).0 ≡ ok row)
      × ((await_payment p.rental_id s now (insert p now v).1).0 ≡ ok tt)
      × ((create_steps p s u).1 ≡ (await_payment p.rental_id s now (insert p now v).1).1)
unfolding create_steps exec
create_steps_parts p row s u now time h = elim (Option-cases (find_rental p.rental_id u.db)) [
  | inl missing ↦ absurd (ground arith)
  | inr (r, e) ↦
      (let is : r.status ≡ s = ground (arith, (rental_status_eq.equal_iff r.status s).0) in
        (
          r,
          (exec (select_rental_status p.rental_id) u).1,
          e,
          is,
          ground arith,
          ground (arith, is),
          ground (arith, is),
          ground (arith, is),
        ))
]

create_for_rental_steps :
    (p row : Payment) (s : RentalStatus) (w : World)
    → (create_for_rental p s w).0 ≡ ok row
    → (r : RentalRow) × (find_rental p.rental_id w.db ≡ some r)
      × (r.status ≡ s)
      × (mid : Database) × (insert_payment
            (record p { status = default_status p.status })
            w.now
            w.db
          ≡ ok (row, mid))
      × ((create_for_rental p s w).1.db ≡ awaiting p.rental_id s w.now mid)
unfolding create_for_rental
create_for_rental_steps p row s w h =
    let q : Payment = record p { status = default_status p.status } in
    let (u, tables, time, ran, final) = transaction-ok (create_steps q s) w row h in
    let (r, v, found, is, same, inserts, awaits, ends) =
      create_steps_parts q row s u w.now time ran in
    (
      r,
      rw tables at found,
      is,
      (insert q w.now v).1.db,
      rw (same, tables) at (insert_effect q row w.now v inserts),
      final ∙ ap (λ (x : World). x.db) ends ∙ await_payment_effect p.rental_id s w.now _ awaits,
    )

-- A payment that is created found its rental in the expected status, and an approved rental waits for
-- it from then on.
pub create_for_rental_effect :
    (p row : Payment) (s : RentalStatus) (w : World)
    → (create_for_rental p s w).0 ≡ ok row
    → (r : RentalRow) × (find_rental p.rental_id w.db ≡ some r)
      × (r.status ≡ s)
      × (mid : Database) × Inserted
          (record p { status = default_status p.status })
          row
          w.now
          w.db
          mid
      × ((create_for_rental p s w).1.db ≡ awaiting p.rental_id s w.now mid)
create_for_rental_effect p row s w h =
    let (r, found, expected, mid, insertion, final) = create_for_rental_steps p row s w h in
    (r, found, expected, mid, insert_payment_effect _ row w.now w.db mid insertion, final)

-- A confirmed payment was pending and is paid now; its rental waited for it and is confirmed.
pub confirm_effect :
    (id : ℕ) (w : World)
    → (confirm id w).0 ≡ ok tt
    → (p : Payment) × (find (has_status id pending) w.db.payments ≡ some p)
      × ((confirm id w).1.db ≡ record (w.db) {
        payments = update (has_status id pending) (set_paid w.now) w.db.payments;
        rentals = update (waits p.rental_id) (set_rental_status confirmed w.now) w.db.rentals;
      })
      × (0 < count (waits p.rental_id) w.db.rentals)
unfolding confirm transaction update_rentals
confirm_effect id w h = elim (Option-cases (find (has_status id pending) w.db.payments)) [
  | inl no_row ↦ absurd (ground arith)
  | inr (p, e) ↦ (p, e, ground arith, ground arith)
]

-- A failed payment was pending; its rental is cancelled and the open invoice void.
pub fail_payment_effect :
    (id : ℕ) (w : World)
    → (fail_payment id w).0 ≡ ok tt
    → (p : Payment) × (find (has_status id pending) w.db.payments ≡ some p)
      × ((fail_payment id w).1.db ≡ record (w.db) {
        payments = update (has_status id pending) (set_status failed w.now) w.db.payments;
        rentals =
            update
              (is_row p.rental_id)
              (set_rental_status RentalStatus.cancelled w.now)
              w.db.rentals;
        invoices =
            update (is_open_invoice p.rental_id) (set_invoice_status void w.now) w.db.invoices;
      })
unfolding fail_payment transaction update_rentals update_invoices
fail_payment_effect id w h = elim (Option-cases (find (has_status id pending) w.db.payments)) [
  | inl no_row ↦ absurd (ground arith)
  | inr (p, e) ↦ (p, e, ground arith)
]

-- A refunded payment was paid; its rental is cancelled unless it was completed, and its invoice void.
pub refund_effect :
    (id : ℕ) (w : World)
    → (refund id w).0 ≡ ok tt
    → (p : Payment) × (find (has_status id PaymentStatus.paid) w.db.payments ≡ some p)
      × ((refund id w).1.db ≡ record (w.db) {
        payments =
            update (has_status id PaymentStatus.paid) (set_status refunded w.now) w.db.payments;
        rentals =
            update
              (is_unfinished_row p.rental_id)
              (set_rental_status RentalStatus.cancelled w.now)
              w.db.rentals;
        invoices =
            update (is_unvoided_invoice p.rental_id) (set_invoice_status void w.now) w.db.invoices;
      })
unfolding refund transaction update_rentals update_invoices
refund_effect id w h = elim (Option-cases (find (has_status id PaymentStatus.paid) w.db.payments)) [
  | inl no_row ↦ absurd (ground arith)
  | inr (p, e) ↦ (p, e, ground arith)
]
