-- ===== src/Invoices/Repository.antt =====
-- internal/repository/invoice_repository.go.
use mathlib.Core.Option
use rentcar_backend.Base.{
  ℕ, suc, ◌==◌, nat_eq, string_eq, if◌then◌else◌, not, ◌&&◌, ◌∷◌, Option, some, ok, exists, find,
  count, update, Bool,
}
use rentcar_backend.Models.{Invoice, InvoiceStatus, issued, invoice_status_eq}
use rentcar_backend.Store.{Database, Action, pure, ◌>>=◌, ◌>>◌, gets, exec, Statement}
use rentcar_backend.Store.Constraints.{
  one_row, refuse_if, find_rental, is_some, is_invoice_status, fits_numeric, numeric_overflow,
  check_violation, foreign_key_violation, unique_violation,
}

abbrev default_status : InvoiceStatus → InvoiceStatus
default_status s = if s == InvoiceStatus.other "" then issued else s

abbrev pub inserted : Invoice → ℕ → Database → Invoice
inserted i now db = record i { id = db.next_invoice; created_at = now; updated_at = now }

-- `INSERT INTO invoices … RETURNING id, issued_at, created_at, updated_at`, under migration 011.
insert_invoice : Invoice → ℕ → Statement Invoice
insert_invoice i now db =
    let row = inserted i now db in
    refuse_if (not (fits_numeric i.amount)) numeric_overflow (
      refuse_if (not (is_invoice_status i.status)) (check_violation "invoices_status_check") (
        refuse_if (exists (λ x. x.rental_id == i.rental_id) db.invoices)
          (unique_violation "invoices_rental_id_key")
          (refuse_if (exists (λ x. x.invoice_number == i.invoice_number) db.invoices)
            (unique_violation "invoices_invoice_number_key")
            (refuse_if (not (is_some (find_rental i.rental_id db)))
              (foreign_key_violation "invoices_rental_id_fkey")
              (ok (
                row,
                record db { invoices = row ∷ db.invoices; next_invoice = suc db.next_invoice },
              ))))))

-- `Create`
unfoldable pub create : Invoice → Action Invoice
unfolding insert_invoice
create invoice = do
  now ← gets (λ w. w.now)
  exec (insert_invoice (record invoice { status = default_status invoice.status }) now)

abbrev pub invoice_of : ℕ → Database → Option Invoice
invoice_of rental db = find (λ i. i.rental_id == rental) db.invoices

-- `FindByRentalID`
unfoldable pub find_by_rental_id : ℕ → Action Invoice
find_by_rental_id rental = exec (λ db. one_row (Option.map (λ i. (i, db)) (invoice_of rental db)))

abbrev is_issued_for : ℕ → Invoice → Bool
is_issued_for rental i = i.rental_id == rental && i.status == issued

abbrev pub set_paid : ℕ → Invoice → Invoice
set_paid now i = record i { status = InvoiceStatus.paid; paid_at = some now; updated_at = now }

-- `UPDATE invoices SET … WHERE rental_id = $1 AND status = 'issued'`
pay_invoices : ℕ → ℕ → Statement ℕ
pay_invoices rental now db = ok (
  count (is_issued_for rental) db.invoices,
  record db { invoices = update (is_issued_for rental) (set_paid now) db.invoices },
)

-- `MarkPaid`: the rows affected are not read.
unfoldable pub mark_paid : ℕ → Action (Unit {0})
unfolding pay_invoices
mark_paid rental = do now ← gets (λ w. w.now); exec (pay_invoices rental now); pure tt
