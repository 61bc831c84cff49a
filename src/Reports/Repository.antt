-- ===== src/Reports/Repository.antt =====
-- internal/repository/report_repository.go. Times are nanoseconds, and amounts are cents.
use Prim.Native.String.{◌++◌}
use rentcar_backend.Base.{
  ℕ, ◌+◌, ◌/◌, ◌==◌, nat_eq, if◌then◌else◌, Bool, false, ◌&&◌, ◌||◌, leb, ltb, String, List, [],
  ◌∷◌, Option, none, some, ok, count, select, map,
}
use mathlib.Core.List.{◌++◌ as append}
use rentcar_backend.Models.{
  Car, RentalRow, confirmed, active, rejected, RentalStatus, Payment, PaymentStatus, pending,
  rental_status_eq, payment_status_eq,
}
use rentcar_backend.Dates.Civil.{date_text}
use rentcar_backend.Listing.{take}
use rentcar_backend.Store.{Database, Action, pure, ◌>>=◌, exec, call, Statement}

-- `TopCarStats` and `ReportSummary`
pub record TopCarStats : Type 0 where
  pub car_id : ℕ
  pub label : String
  pub rental_count : ℕ
  pub revenue : ℕ

pub record ReportSummary : Type 0 where
  pub start_date : String
  pub end_date : String
  pub revenue : ℕ
  pub total_rentals : ℕ
  pub active_rentals : ℕ
  pub pending_payments : ℕ
  pub cancelled : ℕ
  pub top_cars : List TopCarStats

abbrev pub day_length : ℕ
day_length = 86_400_000_000_000

-- `created_at >= $1 AND created_at < $2`, of a period to the end of its last day
abbrev pub in_period : ℕ → ℕ → RentalRow → Bool
in_period start end r = leb start r.created_at && ltb r.created_at (end + day_length)

-- A row of `rentals LEFT JOIN payments`.
pub record Joined : Type 0 where
  pub rental : RentalRow
  pub payment : Option Payment

abbrev or_alone : RentalRow → List Payment → List Joined
or_alone r [] = record { rental = r; payment = none } ∷ []
or_alone r (p ∷ ps) = map (λ q. record { rental = r; payment = some q }) (p ∷ ps)

abbrev pub left_join : List Payment → List RentalRow → List Joined
left_join payments [] = []
left_join payments (r ∷ rs) =
    append (or_alone r (select (λ p. p.rental_id == r.id) payments)) (left_join payments rs)

-- The rows of both queries.
abbrev pub rows_of : ℕ → ℕ → Database → List Joined
rows_of start end db = left_join db.payments (select (in_period start end) db.rentals)

-- `CASE WHEN p.status = 'paid' THEN p.amount ELSE 0 END`, and its sum
abbrev pub paid_amount : Joined → ℕ
paid_amount j = elim j.payment [
  | none ↦ 0
  | some p ↦ if p.status == PaymentStatus.paid then p.amount else 0
]

abbrev pub paid_total : List Joined → ℕ
paid_total [] = 0
paid_total (j ∷ js) = paid_amount j + paid_total js

abbrev is_running : RentalRow → Bool
is_running r = r.status == confirmed || r.status == active

abbrev is_dropped : RentalRow → Bool
is_dropped r = r.status == RentalStatus.cancelled || r.status == rejected

abbrev awaits : Joined → Bool
awaits j = elim j.payment [ none ↦ false | some p ↦ p.status == pending ]

-- The first query, scanned into the result. Identifiers are distinct, so the distinct rentals are the
-- rows of `rentals`, and the distinct payments the joined ones.
unfoldable pub totals : ℕ → ℕ → Statement ReportSummary
totals start end db =
    let rentals = select (in_period start end) db.rentals in
    ok (
      record {
        start_date = date_text (start / day_length);
        end_date = date_text (end / day_length);
        revenue = paid_total (rows_of start end db);
        total_rentals = count (λ r. in_period start end r) db.rentals;
        active_rentals = count is_running rentals;
        pending_payments = count awaits (rows_of start end db);
        cancelled = count is_dropped rentals;
        top_cars = [];
      },
      db,
    )

abbrev pub is_of_car : ℕ → Joined → Bool
is_of_car id j = j.rental.car_id == id

-- A group of the second query, which has a row.
abbrev pub stats_of : List Joined → Car → TopCarStats
stats_of rows c = record {
  car_id = c.id;
  label = c.brand ++ (" " ++ c.model);
  rental_count = count (is_of_car c.id) rows;
  revenue = paid_total (select (is_of_car c.id) rows);
}

abbrev pub groups : List Joined → List Car → List TopCarStats
groups rows cars = select (λ t. ltb 0 t.rental_count) (map (stats_of rows) cars)

-- `rental_count DESC, revenue DESC`; what the order leaves open is the order of the cars.
abbrev pub is_before : TopCarStats → TopCarStats → Bool
is_before s t =
    ltb t.rental_count s.rental_count
    || (s.rental_count == t.rental_count && leb t.revenue s.revenue)

abbrev pub insert_stats : TopCarStats → List TopCarStats → List TopCarStats
insert_stats s [] = s ∷ []
insert_stats s (t ∷ ts) = if is_before s t then s ∷ t ∷ ts else t ∷ insert_stats s ts

abbrev pub sort_stats : List TopCarStats → List TopCarStats
sort_stats [] = []
sort_stats (t ∷ ts) = insert_stats t (sort_stats ts)

-- The second query.
unfoldable pub top_cars : ℕ → ℕ → Statement (List TopCarStats)
top_cars start end db = ok (take 5 (sort_stats (groups (rows_of start end db) db.cars)), db)

-- `Summary`
unfoldable pub summary : ℕ → ℕ → Action ReportSummary
unfolding totals top_cars
summary start end = do
  result ← exec (totals start end)
  cars ← call (exec (top_cars start end))
  pure (record result { top_cars = cars })
