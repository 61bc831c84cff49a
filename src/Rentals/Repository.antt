-- ===== src/Rentals/Repository.antt =====
-- internal/repository/rental_repository.go: the statements on one rental, each handler a transaction.
pub mod Effects
use mathlib.Core.Option
use rentcar_backend.Base.{
  ℕ, suc, ◌==◌, nat_eq, string_eq, if◌then◌else◌, Bool, true, false, not, ◌&&◌, ◌||◌, ◌∷◌, Option,
  none, some, ok, leb, find, exists,
}
use rentcar_backend.AppError.{Error, base, not_found, car_unavailable, double_booking}
use rentcar_backend.Models.{
  RentalStatus, requested, RentalRow, Rental, User, CarStatus, issued, void, Invoice,
  rental_status_eq, car_status_eq, invoice_status_eq, maintenance, inactive,
}
use rentcar_backend.Store.{
  Database, Action, pure, ◌>>=◌, ◌>>◌, require, gets, exec, transaction, Statement, update_rentals,
  update_invoices,
}
use rentcar_backend.Store.Constraints.{
  one_row, refuse_if, find_car, find_user, find_rental, is_some, books, maintains, is_rental_status,
  is_disjoint, fits_numeric, numeric_overflow, check_violation, exclusion_violation,
  foreign_key_violation,
}

abbrev pub when : Bool → Error → Option Error
when true e = some e
when false e = none

-- `SELECT status FROM cars WHERE id = $1 FOR UPDATE`
select_car_status : ℕ → Statement CarStatus
select_car_status car db = one_row (Option.map (λ c. (c.status, db)) (find_car car db))

-- The two `SELECT EXISTS` over rentals and maintenances.
has_rental_overlap : ℕ → ℕ → ℕ → Statement Bool
has_rental_overlap car start end db = ok (exists (books car start end) db.rentals, db)

has_maintenance_overlap : ℕ → ℕ → ℕ → Statement Bool
has_maintenance_overlap car start end db = ok (exists (maintains car start end) db.maintenances, db)

-- The row with the identifier and the times that the database gives it.
abbrev pub inserted : RentalRow → ℕ → Database → RentalRow
inserted r now db = record r { id = db.next_rental; created_at = now; updated_at = now }

-- `INSERT INTO rentals … RETURNING id, created_at, updated_at`, under the table's constraints.
unfoldable pub insert_rental : RentalRow → ℕ → Statement RentalRow
insert_rental r now db =
    let row = inserted r now db in
    let rows = row ∷ db.rentals in
    refuse_if (not (fits_numeric r.total_amount)) numeric_overflow (
      refuse_if (not (leb r.start_date r.end_date)) (check_violation "rentals_date_check") (
        refuse_if (not (is_rental_status r.status)) (check_violation "rentals_status_check") (
          refuse_if (not (is_disjoint rows)) (exclusion_violation "rentals_no_double_booking") (
            refuse_if (not (is_some (find_user r.user_id db)))
              (foreign_key_violation "rentals_user_id_fkey")
              (refuse_if (not (is_some (find_car r.car_id db)))
                (foreign_key_violation "rentals_car_id_fkey")
                (ok (row, record db { rentals = rows; next_rental = suc db.next_rental })))))))

abbrev pub is_unavailable : CarStatus → Bool
is_unavailable s = s == maintenance || s == inactive

abbrev pub default_status : RentalStatus → RentalStatus
default_status s = if s == RentalStatus.other "" then requested else s

-- `CreateWithAvailability`
unfoldable pub create_with_availability : RentalRow → Action RentalRow
unfolding select_car_status has_rental_overlap has_maintenance_overlap
create_with_availability rental =
    let r = record rental { status = default_status rental.status } in
    transaction (do
      car_status ← exec (select_car_status r.car_id)
      require (when (is_unavailable car_status) (base car_unavailable))
      booked ← exec (has_rental_overlap r.car_id r.start_date r.end_date)
      require (when booked (base double_booking))
      maintained ← exec (has_maintenance_overlap r.car_id r.start_date r.end_date)
      require (when maintained (base car_unavailable))
      now ← gets (λ w. w.now)
      exec (insert_rental r now))

-- The columns of a user that the query selects.
abbrev pub selected_user : User → User
selected_user u = record u {
  password_hash = "";
  email_verification_code_hash = "";
  email_verification_expires_at = none;
  email_verification_sent_at = none;
  email_verification_attempts = 0;
}

-- `rentalWithPaymentSelect`: users and cars are joined, the payment is joined where there is one.
unfoldable pub join_rental : Database → RentalRow → Option Rental
join_rental db r = elim (find_user r.user_id db) [
  | none ↦ none
  | some u ↦ elim (find_car r.car_id db) [
    | none ↦ none
    | some c ↦ some (record {
      row = r;
      payment = find (λ p. p.rental_id == r.id) db.payments;
      user = some (selected_user u);
      car = some c;
    })
  ]
]

select_rental : ℕ → Statement Rental
unfolding join_rental
select_rental id db = elim (find_rental id db) [
  | none ↦ one_row none
  | some r ↦ one_row (Option.map (λ rental. (rental, db)) (join_rental db r))
]

-- `FindByID`
unfoldable pub find_by_id : ℕ → Action Rental
unfolding select_rental
find_by_id id = exec (select_rental id)

-- `RowsAffected() == 0`
abbrev pub affects_row : ℕ → Action (Unit {0})
affects_row n = require (when (n == 0) (base not_found))

abbrev pub of_rental : ℕ → Invoice → Bool
of_rental id i = i.rental_id == id

-- The invoices that a cancelled rental voids.
abbrev pub is_open_invoice : ℕ → Invoice → Bool
is_open_invoice id i = of_rental id i && i.status == issued

abbrev pub voids_invoices : RentalStatus → Bool
voids_invoices s = s == RentalStatus.cancelled || s == RentalStatus.rejected

-- `UPDATE invoices … WHERE rental_id = $2 AND status = 'issued'`, its count not read.
abbrev void_invoices : ℕ → ℕ → Action (Unit {0})
void_invoices id now = exec (update_invoices (is_open_invoice id) void now) >>= λ _. pure tt

-- `UpdateStatus`
unfoldable pub update_status : ℕ → RentalStatus → Action (Unit {0})
update_status id s = transaction (do
  now ← gets (λ w. w.now)
  affected ← exec (update_rentals (λ r. r.id == id) s now)
  affects_row affected
  if voids_invoices s then void_invoices id now else pure tt)

-- `Cancel`
unfoldable pub cancel : ℕ → Action (Unit {0})
cancel id = transaction (do
  now ← gets (λ w. w.now)
  affected ← exec (update_rentals (λ r. r.id == id) RentalStatus.cancelled now)
  affects_row affected
  void_invoices id now)
