-- ===== src/Cars/Listing.antt =====
-- The list of cars: the end of internal/repository/car_repository.go.
use Prim.Native.Char.{Char}
use rentcar_backend.Base.{
  ℕ, ◌==◌, nat_eq, string_eq, exists, Bool, true, false, not, ◌&&◌, ◌||◌, leb, ltb, String, List,
  ok, err, count, select,
}
use rentcar_backend.Models.{
  RentalStatus, requested, approved, pending_payment, confirmed, active, MaintenanceStatus,
  scheduled, in_progress, Car, CarStatus, car_status_eq,
}
use rentcar_backend.Text.{trim_space}
use rentcar_backend.Text.Decimal.{decimal}
use rentcar_backend.Text.Like.{ilike}
use rentcar_backend.Dates.{is_zero_date}
use rentcar_backend.Listing.{normal_page, normal_size, page_rows, total_pages}
use rentcar_backend.Store.{Database, Action, pure, ◌>>=◌, exec, call, Statement}

-- `CarListFilter` and `CarListResult`; a bound that is not above 0, like a zero date, asks for nothing.
pub record CarListFilter : Type 0 where
  pub search : String
  pub status : CarStatus
  pub min_year : ℕ
  pub max_year : ℕ
  pub min_daily_rate : ℕ
  pub max_daily_rate : ℕ
  pub available_on : ℕ
  pub page : ℕ
  pub page_size : ℕ

pub record CarListResult : Type 0 where
  pub items : List Car
  pub total : ℕ
  pub page : ℕ
  pub page_size : ℕ
  pub total_pages : ℕ

-- `normalizeCarListFilter`
abbrev pub normalize : CarListFilter → CarListFilter
normalize f = record f {
  search = trim_space f.search;
  page = normal_page f.page;
  page_size = normal_size 12 f.page_size;
}

-- The two conditions on a day in the text of `buildCarListWhere`, which has no part of `IsAvailable`.
abbrev pub is_listed_rental : RentalStatus → Bool
is_listed_rental requested = true
is_listed_rental approved = true
is_listed_rental pending_payment = true
is_listed_rental confirmed = true
is_listed_rental active = true
is_listed_rental _ = false

abbrev pub is_listed_maintenance : MaintenanceStatus → Bool
is_listed_maintenance scheduled = true
is_listed_maintenance in_progress = true
is_listed_maintenance _ = false

abbrev pub has_rental_on : ℕ → ℕ → Database → Bool
has_rental_on car day db =
    exists
      (λ r.
        r.car_id == car && is_listed_rental r.status && leb r.start_date day && leb day r.end_date)
      db.rentals

abbrev pub has_maintenance_on : ℕ → ℕ → Database → Bool
has_maintenance_on car day db =
    exists
      (λ m.
        m.car_id == car
        && is_listed_maintenance m.status
        && leb m.start_date day
        && leb day m.end_date)
      db.maintenances

module _ (fold : Char → Char) where
  abbrev pub is_found : String → Car → Bool
  is_found search c =
      search == ""
      || ilike fold c.brand search
      || ilike fold c.model search
      || ilike fold c.plate_number search
      || ilike fold (decimal 1 c.year) search

  -- `buildCarListWhere`, as the test that its text states; the last two conditions look into the
  -- tables of rentals and maintenances.
  abbrev pub matches : CarListFilter → Database → Car → Bool
  matches f db c =
      is_found f.search c
      && (f.status == CarStatus.other "" || c.status == f.status)
      && (not (ltb 0 f.min_year) || leb f.min_year c.year)
      && (not (ltb 0 f.max_year) || leb c.year f.max_year)
      && (not (ltb 0 f.min_daily_rate) || leb f.min_daily_rate c.daily_rate)
      && (not (ltb 0 f.max_daily_rate) || leb c.daily_rate f.max_daily_rate)
      && (is_zero_date f.available_on
          || not (has_rental_on c.id f.available_on db)
            && not (has_maintenance_on c.id f.available_on db))

  count_matches : CarListFilter → Statement ℕ
  count_matches f db = ok (count (matches f db) db.cars, db)

  -- `ORDER BY id DESC`, the order of the table
  select_page : CarListFilter → Statement (List Car)
  select_page f db = elim (page_rows f.page f.page_size (select (matches f db) db.cars)) [
    | ok rows ↦ ok (rows, db)
    | err c ↦ err c
  ]

  -- `List`
  unfoldable pub list : CarListFilter → Action CarListResult
  unfolding count_matches select_page page_rows
  list filter = do
    let f = normalize filter
    total ← exec (count_matches f)
    items ← call (exec (select_page f))
    pure (record {
      items = items;
      total = total;
      page = f.page;
      page_size = f.page_size;
      total_pages = total_pages total f.page_size;
    })
