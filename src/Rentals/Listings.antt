-- ===== src/Rentals/Listings.antt =====
-- The listings of internal/repository/rental_repository.go that have no pages.
use rentcar_backend.Base.{
  ℕ, ◌==◌, nat_eq, if◌then◌else◌, leb, String, List, [], ◌∷◌, Option, none, some, ok, select,
}
use rentcar_backend.Models.{RentalStatus, MaintenanceStatus, RentalRow, Rental, CarMaintenance}
use rentcar_backend.Store.{Database, Action, exec, Statement}
use rentcar_backend.Store.Constraints.{books, maintains}
use rentcar_backend.Rentals.Repository.{join_rental}

abbrev joined : Option Rental → List Rental → List Rental
joined none rest = rest
joined (some r) rest = r ∷ rest

-- `rentalWithPaymentSelect` on several rows: a row whose customer or car is missing is left out.
unfoldable pub join_rentals : Database → List RentalRow → List Rental
unfolding join_rental
join_rentals db [] = []
join_rentals db (r ∷ rs) = joined (join_rental db r) (join_rentals db rs)

select_by_user : ℕ → Statement (List Rental)
unfolding join_rentals
select_by_user user db = ok (join_rentals db (select (λ r. r.user_id == user) db.rentals), db)

-- `ListByUserID`, `ORDER BY r.id DESC`
unfoldable pub list_by_user_id : ℕ → Action (List Rental)
unfolding select_by_user
list_by_user_id user = exec (select_by_user user)

-- The text of a status, of a rental or of a maintenance.
pub data RangeStatus : Type 0 where
  of_rental : RentalStatus → RangeStatus
  of_maintenance : MaintenanceStatus → RangeStatus

-- `AvailabilityRange`
pub record AvailabilityRange : Type 0 where
  pub source : String
  pub status : RangeStatus
  pub start_date : ℕ
  pub end_date : ℕ

abbrev pub rental_range : RentalRow → AvailabilityRange
rental_range r = record {
  source = "rental";
  status = of_rental r.status;
  start_date = r.start_date;
  end_date = r.end_date;
}

-- `ORDER BY start_date ASC`
abbrev pub insert_range : AvailabilityRange → List AvailabilityRange → List AvailabilityRange
insert_range x [] = x ∷ []
insert_range x (y ∷ ys) =
    let rest = insert_range x ys in if leb x.start_date y.start_date then x ∷ y ∷ ys else y ∷ rest

abbrev pub maintenance_range : CarMaintenance → AvailabilityRange
maintenance_range m = record {
  source = "maintenance";
  status = of_maintenance m.status;
  start_date = m.start_date;
  end_date = m.end_date;
}

-- The rows of a query as ranges, in that order
abbrev pub ranges_by_start :
    {A : Type 0} → (A → AvailabilityRange) → List A → List AvailabilityRange
ranges_by_start f [] = []
ranges_by_start f (r ∷ rs) = insert_range (f r) (ranges_by_start f rs)

select_ranges : ℕ → ℕ → ℕ → Statement (List AvailabilityRange)
select_ranges car start end db =
    ok (ranges_by_start rental_range (select (books car start end) db.rentals), db)

-- `ListCalendarRanges`
unfoldable pub list_calendar_ranges : ℕ → ℕ → ℕ → Action (List AvailabilityRange)
unfolding select_ranges
list_calendar_ranges car start end = exec (select_ranges car start end)

select_maintenance_ranges : ℕ → ℕ → ℕ → Statement (List AvailabilityRange)
select_maintenance_ranges car start end db =
    ok (ranges_by_start maintenance_range (select (maintains car start end) db.maintenances), db)

-- `ListCalendarRanges` of internal/repository/maintenance_repository.go
unfoldable pub list_maintenance_ranges : ℕ → ℕ → ℕ → Action (List AvailabilityRange)
unfolding select_maintenance_ranges
list_maintenance_ranges car start end = exec (select_maintenance_ranges car start end)
