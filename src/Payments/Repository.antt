-- ===== src/Payments/Repository.antt =====
-- internal/repository/payment_repository.go. A payment and its rental change in one transaction.
pub mod Effects
use mathlib.Core.Option
use rentcar_backend.Base.{
  ℕ, suc, ◌==◌, nat_eq, if◌then◌else◌, Bool, not, ◌&&◌, ◌||◌, ◌∷◌, [], Option, some, ok, err, find,
  exists, update, count,
}
use rentcar_backend.AppError.{
  Cause, no_rows, Error, base, new, invalid_payment, payment_exists, map_cause,
  is_postgres_constraint,
}
use rentcar_backend.Models.{
  RentalStatus, approved, pending_payment, confirmed, RentalRow, rental_status_eq, PaymentStatus,
  pending, failed, refunded, Payment, payment_status_eq, Invoice, InvoiceStatus, issued, void,
  invoice_status_eq,
}
use rentcar_backend.Store.{
  Database, Action, pure, fail, ◌>>=◌, ◌>>◌, require, gets, attempt, exec, transaction, Statement,
  update_rentals, update_invoices,
}
use rentcar_backend.Store.Constraints.{
  one_row, refuse_if, find_rental, is_some, is_payment_status, is_payment_method, fits_numeric,
  numeric_overflow, check_violation, unique_violation, foreign_key_violation,
}
use rentcar_backend.Rentals.Repository.{when, is_open_invoice}

-- `SELECT … WHERE id = $1` and `WHERE rental_id = $1`
abbrev pub payment_by_id : ℕ → Database → Option Payment
payment_by_id id db = find (λ p. p.id == id) db.payments

abbrev pub payment_of : ℕ → Database → Option Payment
payment_of rental db = find (λ p. p.rental_id == rental) db.payments

abbrev pub inserted : Payment → ℕ → Database → Payment
inserted p now db = record p { id = db.next_payment; created_at = now; updated_at = now }

-- `INSERT INTO payments … RETURNING id, created_at, updated_at`, under the table's constraints.
unfoldable pub insert_payment : Payment → ℕ → Statement Payment
insert_payment p now db =
    let row = inserted p now db in
    refuse_if (not (fits_numeric p.amount)) numeric_overflow (
      refuse_if (not (is_payment_method p.method)) (check_violation "payments_method_check") (
        refuse_if (not (is_payment_status p.status)) (check_violation "payments_status_check") (
          refuse_if (exists (λ x. x.rental_id == p.rental_id) db.payments)
            (unique_violation "payments_rental_id_key")
            (refuse_if (not (is_some (find_rental p.rental_id db)))
              (foreign_key_violation "payments_rental_id_fkey")
              (ok (
                row,
                record db { payments = row ∷ db.payments; next_payment = suc db.next_payment },
              ))))))

abbrev pub default_status : PaymentStatus → PaymentStatus
default_status s = if s == PaymentStatus.other "" then pending else s

-- The error of an insertion: the unique key on the rental has an error of its own.
abbrev pub insert_error : Cause → Error
insert_error c =
    if is_postgres_constraint c "23505" ("payments_rental_id_key" ∷ [])
    then base payment_exists
    else map_cause c

unfoldable pub insert : Payment → ℕ → Action Payment
insert p now =
    attempt (insert_payment p now) >>= λ r. elim r [ ok x ↦ pure x | err c ↦ fail (insert_error c) ]

-- `Create`
unfoldable pub create : Payment → Action Payment
create payment = do
  now ← gets (λ w. w.now)
  insert (record payment { status = default_status payment.status }) now

-- `SELECT status FROM rentals WHERE id = $1 FOR UPDATE`
select_rental_status : ℕ → Statement RentalStatus
select_rental_status id db = one_row (Option.map (λ r. (r.status, db)) (find_rental id db))

abbrev pub status_changed : Error
status_changed = new 409 "rental status changed; refresh and try again"

abbrev pub is_approved_row : ℕ → RentalRow → Bool
is_approved_row id r = r.id == id && r.status == approved

-- The rental that was approved waits for its payment from now on.
unfoldable pub await_payment : ℕ → RentalStatus → ℕ → Action (Unit {0})
await_payment rental current now =
    if current == approved
    then (do
      affected ← exec (update_rentals (is_approved_row rental) pending_payment now)
      require (when (affected == 0) status_changed))
    else pure tt

-- The body of `CreateForRental`.
create_steps : Payment → RentalStatus → Action Payment
unfolding select_rental_status
create_steps p expected = do
  current ← exec (select_rental_status p.rental_id)
  require (when (not (current == expected)) status_changed)
  now ← gets (λ w. w.now)
  row ← insert p now
  await_payment p.rental_id current now
  pure row

-- `CreateForRental`
unfoldable pub create_for_rental : Payment → RentalStatus → Action Payment
unfolding create_steps
create_for_rental payment expected =
    transaction (create_steps (record payment { status = default_status payment.status }) expected)

-- `FindByID` and `FindByRentalID`
unfoldable pub find_by_id : ℕ → Action Payment
find_by_id id = exec (λ db. one_row (Option.map (λ p. (p, db)) (payment_by_id id db)))

unfoldable pub find_by_rental_id : ℕ → Action Payment
find_by_rental_id rental = exec (λ db. one_row (Option.map (λ p. (p, db)) (payment_of rental db)))

abbrev pub set_status : PaymentStatus → ℕ → Payment → Payment
set_status s now p = record p { status = s; updated_at = now }

-- `paid_at = CASE WHEN $1 = 'paid' THEN NOW() ELSE paid_at END`
abbrev pub set_status_paid_at : PaymentStatus → ℕ → Payment → Payment
set_status_paid_at s now p = record p {
  status = s;
  paid_at = if s == PaymentStatus.paid then some now else p.paid_at;
  updated_at = now;
}

abbrev pub set_paid : ℕ → Payment → Payment
set_paid now p = record p { status = PaymentStatus.paid; paid_at = some now; updated_at = now }

-- `UPDATE payments SET f WHERE p`, with the rows affected.
unfoldable pub update_payments : (Payment → Bool) → (Payment → Payment) → Statement ℕ
update_payments p f db = ok (count p db.payments, record db { payments = update p f db.payments })

-- `UpdateStatus`, under `payments_status_check`; the rows affected are not read.
unfoldable pub update_status : ℕ → PaymentStatus → Action (Unit {0})
unfolding update_payments
update_status id s = do
  now ← gets (λ w. w.now)
  exec (λ db.
      refuse_if (not (is_payment_status s) && is_some (payment_by_id id db))
        (check_violation "payments_status_check")
        (update_payments (λ p. p.id == id) (set_status_paid_at s now) db))
  pure tt

abbrev pub has_status : ℕ → PaymentStatus → Payment → Bool
has_status id s p = p.id == id && p.status == s

-- `UPDATE payments SET f WHERE id = $2 AND status = s RETURNING rental_id`, scanned into one row.
unfoldable pub settle_payment : ℕ → PaymentStatus → (Payment → Payment) → Statement ℕ
settle_payment id s f db =
    let db' = record db { payments = update (has_status id s) f db.payments } in
    one_row (Option.map (λ p. (p.rental_id, db')) (find (has_status id s) db.payments))

-- No row that fits is `ErrInvalidPayment`.
abbrev pub settle_error : Cause → Error
settle_error no_rows = base invalid_payment
settle_error c = map_cause c

abbrev pub settle_row : ℕ → PaymentStatus → (Payment → Payment) → Action ℕ
settle_row id s f = attempt (settle_payment id s f) >>= λ r. elim r [
  | ok x ↦ pure x
  | err c ↦ fail (settle_error c)
]

-- `Confirm`
unfoldable pub confirm : ℕ → Action (Unit {0})
unfolding settle_payment
confirm id = transaction (do
  now ← gets (λ w. w.now)
  rental ← settle_row id pending (set_paid now)
  affected ←
      exec (update_rentals (λ r. r.id == rental && r.status == pending_payment) confirmed now)
  require (when (affected == 0) (base invalid_payment)))

-- `Fail`
unfoldable pub fail_payment : ℕ → Action (Unit {0})
unfolding settle_payment
fail_payment id = transaction (do
  now ← gets (λ w. w.now)
  rental ← settle_row id pending (set_status failed now)
  exec (update_rentals (λ r. r.id == rental) RentalStatus.cancelled now)
  exec (update_invoices (is_open_invoice rental) void now)
  pure tt)

abbrev pub is_unvoided_invoice : ℕ → Invoice → Bool
is_unvoided_invoice rental i =
    i.rental_id == rental && (i.status == issued || i.status == InvoiceStatus.paid)

-- `Refund`
unfoldable pub refund : ℕ → Action (Unit {0})
unfolding settle_payment
refund id = transaction (do
  now ← gets (λ w. w.now)
  rental ← settle_row id PaymentStatus.paid (set_status refunded now)
  exec (
      update_rentals (λ r. r.id == rental && not (r.status == RentalStatus.completed))
        RentalStatus.cancelled now)
  exec (update_invoices (is_unvoided_invoice rental) void now)
  pure tt)
