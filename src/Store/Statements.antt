-- ===== src/Store/Statements.antt =====
-- The UPDATE statements that several repositories send.
use rentcar_backend.Base.{ℕ, Bool, not, ◌&&◌, leb, ok, count, update}
use rentcar_backend.Models.{RentalStatus, RentalRow, InvoiceStatus, Invoice}
use rentcar_backend.Store.Exec.{Statement}
use rentcar_backend.Store.Constraints.{
  refuse_if, check_violation, exclusion_violation, is_rental_status, is_invoice_status, is_disjoint,
}

abbrev pub set_rental_status : RentalStatus → ℕ → RentalRow → RentalRow
set_rental_status s now r = record r { status = s; updated_at = now }

abbrev pub set_invoice_status : InvoiceStatus → ℕ → Invoice → Invoice
set_invoice_status s now i = record i { status = s; updated_at = now }

-- `UPDATE rentals SET status = s, updated_at = NOW() WHERE p`, with the rows affected.
unfoldable pub update_rentals : (RentalRow → Bool) → RentalStatus → ℕ → Statement ℕ
update_rentals p s now db =
    let rows = update p (set_rental_status s now) db.rentals in
    let affected = count p db.rentals in
    refuse_if (not (is_rental_status s) && leb 1 affected) (check_violation "rentals_status_check")
      (refuse_if (not (is_disjoint rows)) (exclusion_violation "rentals_no_double_booking")
        (ok (affected, record db { rentals = rows })))

-- `UPDATE invoices SET status = s, updated_at = NOW() WHERE p`
unfoldable pub update_invoices : (Invoice → Bool) → InvoiceStatus → ℕ → Statement ℕ
update_invoices p s now db =
    let affected = count p db.invoices in
    refuse_if (not (is_invoice_status s) && leb 1 affected)
      (check_violation "invoices_status_check")
      (ok (affected, record db { invoices = update p (set_invoice_status s now) db.invoices }))
