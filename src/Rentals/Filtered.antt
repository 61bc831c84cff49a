-- ===== src/Rentals/Filtered.antt =====
-- The paged listing of internal/repository/rental_repository.go.
use rentcar_backend.Base.{
  ℕ, ◌==◌, nat_eq, Bool, false, not, ◌&&◌, ◌||◌, leb, ltb, List, Option, none, some, ok, err, count,
  select,
}
use rentcar_backend.Models.{
  RentalStatus, PaymentStatus, RentalRow, Rental, Payment, rental_status_eq, payment_status_eq,
}
use rentcar_backend.Dates.{is_zero_date}
use rentcar_backend.Listing.{normal_page, normal_size, page_rows, total_pages}
use rentcar_backend.Store.{Database, Action, pure, ◌>>=◌, exec, call, Statement}
use rentcar_backend.Payments.Repository.{payment_of}
use rentcar_backend.Rentals.Listings.{join_rentals}

-- `RentalListFilter` and `RentalListResult`; an identifier of 0, a status of "" and a zero date ask for
-- nothing.
pub record RentalListFilter : Type 0 where
  pub status : RentalStatus
  pub payment_status : PaymentStatus
  pub user_id : ℕ
  pub car_id : ℕ
  pub start_from : ℕ
  pub end_to : ℕ
  pub page : ℕ
  pub page_size : ℕ

pub record RentalListResult : Type 0 where
  pub items : List Rental
  pub total : ℕ
  pub page : ℕ
  pub page_size : ℕ
  pub total_pages : ℕ

-- `normalizeRentalListFilter`
abbrev pub normalize : RentalListFilter → RentalListFilter
normalize f = record f { page = normal_page f.page; page_size = normal_size 20 f.page_size }

-- `p.status = …` under a LEFT JOIN: not true where there is no payment
abbrev has_status : PaymentStatus → Option Payment → Bool
has_status s none = false
has_status s (some p) = p.status == s

-- `buildRentalListWhere`, as the test that its text states
abbrev pub matches : RentalListFilter → Database → RentalRow → Bool
matches f db r =
    (f.status == RentalStatus.other "" || r.status == f.status)
    && (f.payment_status == PaymentStatus.other ""
        || has_status f.payment_status (payment_of r.id db))
    && (not (ltb 0 f.user_id) || r.user_id == f.user_id)
    && (not (ltb 0 f.car_id) || r.car_id == f.car_id)
    && (is_zero_date f.start_from || leb f.start_from r.start_date)
    && (is_zero_date f.end_to || leb r.end_date f.end_to)

count_matches : RentalListFilter → Statement ℕ
count_matches f db = ok (count (matches f db) db.rentals, db)

-- `ORDER BY r.id DESC`, the order of the table
select_page : RentalListFilter → Statement (List Rental)
select_page f db =
    elim (page_rows f.page f.page_size (join_rentals db (select (matches f db) db.rentals))) [
      | ok rows ↦ ok (rows, db)
      | err c ↦ err c
    ]

-- `ListAll`
unfoldable pub list_all : RentalListFilter → Action RentalListResult
unfolding count_matches select_page page_rows
list_all filter = do
  let f = normalize filter
  total ← exec (count_matches f)
  items ← call (exec (select_page f))
  pure (record {
    items = items;
    total = total;
    page = f.page;
    page_size = f.page_size;
    total_pages = total_pages total f.page_size;
  })
