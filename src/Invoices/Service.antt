-- ===== src/Invoices/Service.antt =====
-- internal/service/invoice_service.go.
use Prim.Native.String.{◌++◌}
use rentcar_backend.Base.{
  ℕ, ◌+◌, ◌-◌, ◌*◌, ◌/◌, nat_eq, if◌then◌else◌, not, leb, ltb, String, Option, none, some, Outcome,
  ok, err,
}
use rentcar_backend.AppError.{Error, base, forbidden, not_found}
use rentcar_backend.Models.{Rental, Payment, Invoice, InvoiceStatus, issued, UserRole}
use rentcar_backend.Text.Decimal.{decimal}
use rentcar_backend.Dates.{days_before_year}
use rentcar_backend.Store.{Action, pure, ◌>>=◌, ◌>>◌, require, gets, call, catch}
use rentcar_backend.Rentals.Repository as RentalRepository
use rentcar_backend.Rentals.Repository.{when}
use rentcar_backend.Rentals.Service.Handlers.{may_access}
use rentcar_backend.Rentals.Service.Status.{payment_paid}
use rentcar_backend.Invoices.Repository

-- The year of a day: an estimate from the mean length of a year, off by one at most.
abbrev corrected : ℕ → ℕ → ℕ
corrected day y =
    if leb (days_before_year (y + 1)) day
    then y + 1
    else if ltb day (days_before_year y)
    then y - 1
    else y

-- `time.Time.Year`
unfoldable pub year_of : ℕ → ℕ
unfolding days_before_year
year_of day = corrected day (day * 400 / 146_097)

-- `fmt.Sprintf("INV-%d-%06d", now.Year(), rental.ID)`
unfoldable pub invoice_number : ℕ → ℕ → String
unfolding year_of decimal
invoice_number now rental =
    "INV-" ++ decimal 1 (year_of (now / 86_400_000_000_000)) ++ "-" ++ decimal 6 rental

abbrev paid_time : Option Payment → Option ℕ
paid_time none = none
paid_time (some p) = p.paid_at

-- The invoice of a rental that has none.
abbrev pub new_invoice : ℕ → Rental → Invoice
new_invoice now rental = record {
  id = 0;
  rental_id = rental.row.id;
  invoice_number = invoice_number now rental.row.id;
  amount = rental.row.total_amount;
  status = if payment_paid rental.payment then InvoiceStatus.paid else issued;
  issued_at = now;
  due_at = none;
  paid_at = if payment_paid rental.payment then paid_time rental.payment else none;
  created_at = 0;
  updated_at = 0;
}

-- `err != apperror.ErrNotFound`, by address
abbrev pub is_exactly_not_found : Error → Option Error
is_exactly_not_found (base not_found) = none
is_exactly_not_found e = some e

-- The rest of `GetOrCreate`, by what the search for the invoice has given.
abbrev pub or_create : Rental → Outcome Error Invoice → Action Invoice
or_create rental (ok invoice) = pure invoice
or_create rental (err e) = do
  require (is_exactly_not_found e)
  now ← gets (λ w. w.now)
  call (Repository.create (new_invoice now rental))

-- `GetOrCreate`
unfoldable pub get_or_create : ℕ → UserRole → ℕ → Action Invoice
get_or_create user role id = do
  rental ← call (RentalRepository.find_by_id id)
  require (when (not (may_access user role rental.row)) (base forbidden))
  found ← call (catch (Repository.find_by_rental_id id))
  or_create rental found

-- `MarkPaid`
unfoldable pub mark_paid : ℕ → Action (Unit {0})
mark_paid id = call (Repository.mark_paid id)
