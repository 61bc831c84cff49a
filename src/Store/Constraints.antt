-- ===== src/Store/Constraints.antt =====
-- The constraints that migrations 003, 004, 010, 011 and 012 declare, and the statements that write
-- under them. New rows are put in front, so a table lists its rows by falling identifier.
use rentcar_backend.Base.{
  ℕ, ◌==◌, nat_eq, string_eq, if◌then◌else◌, Bool, true, false, not, ◌&&◌, String, List, [], ◌∷◌,
  Outcome, ok, err, leb, ltb, exists, find, Option, none, some,
}
use rentcar_backend.AppError.{Cause, no_rows, pg}
use rentcar_backend.Models.{
  RentalStatus, requested, approved, pending_payment, confirmed, active, PaymentStatus,
  PaymentMethod, InvoiceStatus, MaintenanceStatus, scheduled, in_progress, RentalRow,
  CarMaintenance, User, Car, CarStatus,
}
use rentcar_backend.Store.Schema.{Database}

-- The result of a statement unless a constraint refuses it.
abbrev pub refuse_if : {A : Type 0} → Bool → Cause → Outcome Cause A → Outcome Cause A
refuse_if bad c rest = if bad then err c else rest

-- `IN ('requested', 'approved', 'pending_payment', 'confirmed', 'active')`
abbrev pub blocks : RentalStatus → Bool
blocks requested = true
blocks approved = true
blocks pending_payment = true
blocks confirmed = true
blocks active = true
blocks _ = false

-- `IN ('scheduled', 'in_progress')`
abbrev pub maintenance_blocks : MaintenanceStatus → Bool
maintenance_blocks scheduled = true
maintenance_blocks in_progress = true
maintenance_blocks _ = false

-- `start_date <= $3 AND end_date >= $2`
abbrev pub overlaps : ℕ → ℕ → ℕ → ℕ → Bool
overlaps start_date end_date start end = leb start_date end && leb start end_date

-- A rental that keeps its car from being booked on some day of `start` to `end`.
abbrev pub books : ℕ → ℕ → ℕ → RentalRow → Bool
books car start end r =
    r.car_id == car && blocks r.status && overlaps r.start_date r.end_date start end

abbrev pub maintains : ℕ → ℕ → ℕ → CarMaintenance → Bool
maintains car start end m =
    m.car_id == car && maintenance_blocks m.status && overlaps m.start_date m.end_date start end

-- Two rows that `rentals_no_double_booking` refuses together.
abbrev pub clashes : RentalRow → RentalRow → Bool
clashes r x = blocks r.status && books r.car_id r.start_date r.end_date x

unfoldable pub is_disjoint : List RentalRow → Bool
is_disjoint [] = true
is_disjoint (r ∷ rs) = not (exists (clashes r) rs) && is_disjoint rs

-- `car_maintenances_no_overlap`
abbrev pub maintenance_clashes : CarMaintenance → CarMaintenance → Bool
maintenance_clashes m x =
    maintenance_blocks m.status && maintains m.car_id m.start_date m.end_date x

unfoldable pub is_disjoint_maintenance : List CarMaintenance → Bool
is_disjoint_maintenance [] = true
is_disjoint_maintenance (m ∷ ms) =
    not (exists (maintenance_clashes m) ms) && is_disjoint_maintenance ms

-- `rentals_status_check` and its like: the status is one of the constants.
abbrev pub is_rental_status : RentalStatus → Bool
is_rental_status (RentalStatus.other _) = false
is_rental_status _ = true

abbrev pub is_payment_status : PaymentStatus → Bool
is_payment_status (PaymentStatus.other _) = false
is_payment_status _ = true

abbrev pub is_payment_method : PaymentMethod → Bool
is_payment_method (PaymentMethod.other _) = false
is_payment_method _ = true

abbrev pub is_invoice_status : InvoiceStatus → Bool
is_invoice_status (InvoiceStatus.other _) = false
is_invoice_status _ = true

abbrev pub is_maintenance_status : MaintenanceStatus → Bool
is_maintenance_status (MaintenanceStatus.other _) = false
is_maintenance_status _ = true

abbrev pub is_car_status : CarStatus → Bool
is_car_status (CarStatus.other _) = false
is_car_status _ = true

-- NUMERIC(12, 2): below 10 ^ 10 units, in cents.
abbrev pub fits_numeric : ℕ → Bool
fits_numeric cents = ltb cents 1_000_000_000_000

abbrev pub numeric_overflow : Cause
numeric_overflow = pg "22003" ""

abbrev pub check_violation : String → Cause
check_violation name = pg "23514" name

abbrev pub foreign_key_violation : String → Cause
foreign_key_violation name = pg "23503" name

abbrev pub unique_violation : String → Cause
unique_violation name = pg "23505" name

abbrev pub exclusion_violation : String → Cause
exclusion_violation name = pg "23P01" name

-- `SELECT … WHERE id = $1`, scanned into one row.
abbrev pub one_row : {A : Type 0} → Option A → Outcome Cause A
one_row none = err no_rows
one_row (some a) = ok a

abbrev pub find_user : ℕ → Database → Option User
find_user i db = find (λ u. u.id == i) db.users

abbrev pub find_car : ℕ → Database → Option Car
find_car i db = find (λ c. c.id == i) db.cars

abbrev pub find_rental : ℕ → Database → Option RentalRow
find_rental i db = find (λ r. r.id == i) db.rentals

abbrev pub is_some : {A : Type 0} → Option A → Bool
is_some none = false
is_some (some _) = true
