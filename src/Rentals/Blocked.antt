-- ===== src/Rentals/Blocked.antt =====
-- The blocked days of a calendar are those on which the car is not available.
use mathlib.Core.List.{◌++◌ as append}
use rentcar_backend.Base.{
  ℕ, zero, suc, ◌+◌, ◌-◌, ◌≤◌, ◌==◌, nat_eq, string_eq, ◌≡◌, refl, ap, sym, ◌∙◌, Bool, true, ◌&&◌,
  ◌||◌, leb, String, List, [], ◌∷◌, ok, exists, select, arith,
}
use rentcar_backend.Models.{Car}
use rentcar_backend.Store.{Database, World, Action, ◌>>=◌, pure, exec, attempt, call}
use rentcar_backend.Store.Constraints.{books, maintains, overlaps}
use rentcar_backend.Store.Inversion.{bind-ok}
use rentcar_backend.Store.Keeps.{call_alone}
use rentcar_backend.Cars.Repository as CarRepository
use rentcar_backend.Cars.Repository.{is_free}
use rentcar_backend.Rentals.Listings.{
  AvailabilityRange, rental_range, maintenance_range, insert_range, ranges_by_start,
  list_calendar_ranges, list_maintenance_ranges,
}
use rentcar_backend.Rentals.Calendar.{
  insert_day, mark, max_day, min_day, block, CalendarResult, ranges_of, calendar_result,
  month_calendar,
}

-- The day is in the set.
abbrev pub has : ℕ → List ℕ → Bool
has d xs = exists (λ x. x == d) xs

has-insert_day : (d day : ℕ) (xs : List ℕ) → has d (insert_day day xs) ≡ (day == d || has d xs)
has-insert_day d day [] = ground arith
has-insert_day d day (x ∷ xs) = ground (arith, has-insert_day d day xs)

-- Where the fuel is more than the days from `day` to `end`, the loop has marked exactly those
-- days, and kept what was marked.
pub has-mark :
    (fuel day end : ℕ) (blocked : List ℕ) (d : ℕ)
    → end + 2 ≤ day + fuel
    → has d (mark fuel day end blocked) ≡ (leb day d && leb d end || has d blocked)
has-mark zero day end blocked d enough = ground arith
has-mark (suc fuel) day end blocked d enough =
    ground
      (arith, has-mark fuel (day + 1) end (insert_day day blocked) d, has-insert_day d day blocked)

-- Some range has the day.
abbrev pub ranged : ℕ → List AvailabilityRange → Bool
ranged d items = exists (λ i. overlaps i.start_date i.end_date d d) items

abbrev pub within : ℕ → ℕ → ℕ → Bool
within start end d = leb start d && leb d end

pub has-block :
    (start end : ℕ) (items : List AvailabilityRange) (blocked : List ℕ) (d : ℕ)
    → has d (block start end items blocked)
      ≡ (within start end d && ranged d items || has d blocked)
has-block start end [] blocked d = ground arith
has-block start end (i ∷ items) blocked d =
    let first : ℕ = max_day i.start_date start in
    let last : ℕ = min_day i.end_date end in
    let fuel : ℕ = suc last - first + 1 in
    let marked : has d (mark fuel first last blocked)
        ≡ (leb first d && leb d last || has d blocked) =
      has-mark fuel first last blocked d (omega arith) in
    has-block start end items (mark fuel first last blocked) d ∙ ground (arith, marked)

exists-insert_range :
    (q : AvailabilityRange → Bool) (x : AvailabilityRange) (ys : List AvailabilityRange)
    → exists q (insert_range x ys) ≡ (q x || exists q ys)
exists-insert_range q x [] = refl
exists-insert_range q x (y ∷ ys) = ground (arith, exists-insert_range q x ys)

module _ {A : Type 0} (q : AvailabilityRange → Bool) (f : A → AvailabilityRange)
    (p r : A → Bool) where
  -- A range of the rows of a query has what some of those rows has.
  exists-ranges :
      (xs : List A)
      → ((x : A) → (p x && q (f x)) ≡ r x)
      → exists q (ranges_by_start f (select p xs)) ≡ exists r xs
  exists-ranges [] same = refl
  exists-ranges (x ∷ xs) same = ground (
    arith,
    same x,
    exists-ranges xs same,
    exists-insert_range q (f x) (ranges_by_start f (select p xs)),
  )

pub exists-append :
    (q : AvailabilityRange → Bool) (xs ys : List AvailabilityRange)
    → exists q (append xs ys) ≡ (exists q xs || exists q ys)
exists-append q [] ys = refl
exists-append q (x ∷ xs) ys = ground (arith, exists-append q xs ys)

module _ (car start end d : ℕ) (db : Database) (inside : within start end d ≡ true) where
  pub rental_days :
      ranged d (ranges_by_start rental_range (select (books car start end) db.rentals))
      ≡ exists (books car d d) db.rentals
  rental_days =
      exists-ranges (λ i. overlaps i.start_date i.end_date d d) rental_range (books car start end)
        (books car d d) db.rentals (λ r. ground (arith, inside))

  pub maintenance_days :
      ranged d
        (ranges_by_start maintenance_range (select (maintains car start end) db.maintenances))
      ≡ exists (maintains car d d) db.maintenances
  maintenance_days =
      exists-ranges (λ i. overlaps i.start_date i.end_date d d) maintenance_range
        (maintains car start end) (maintains car d d) db.maintenances (λ m. ground (arith, inside))

rentals_effect :
    (car start end : ℕ) (xs : List AvailabilityRange) (w : World)
    → (list_calendar_ranges car start end w).0 ≡ ok xs
    → xs ≡ ranges_by_start rental_range (select (books car start end) w.db.rentals)
unfolding list_calendar_ranges exec attempt
rentals_effect car start end xs w h = ground arith

maintenances_effect :
    (car start end : ℕ) (xs : List AvailabilityRange) (w : World)
    → (list_maintenance_ranges car start end w).0 ≡ ok xs
    → xs ≡ ranges_by_start maintenance_range (select (maintains car start end) w.db.maintenances)
unfolding list_maintenance_ranges exec attempt
maintenances_effect car start end xs w h = ground arith

rentals_same :
    (car start end : ℕ) (w : World)
    → ((list_calendar_ranges car start end w).1.db ≡ w.db)
      × ((list_calendar_ranges car start end w).1.others ≡ w.others)
unfolding list_calendar_ranges exec attempt
rentals_same car start end w = (ground arith, ground arith)

car_same :
    (car : ℕ) (w : World)
    → ((CarRepository.find_by_id car w).1.db ≡ w.db)
      × ((CarRepository.find_by_id car w).1.others ≡ w.others)
unfolding CarRepository.find_by_id exec attempt
car_same car w = (ground arith, ground arith)

-- The ranges that a calendar is made of.
pub calendar_ranges :
    (car start end : ℕ) (month : String) (r : CalendarResult) (w : World)
    → w.others ≡ []
    → (month_calendar true car month start end w).0 ≡ ok r
    → r.blocked_days
      ≡ block start end
          (append (ranges_by_start rental_range (select (books car start end) w.db.rentals)) (
            ranges_by_start maintenance_range (select (maintains car start end) w.db.maintenances)))
          []
unfolding month_calendar
calendar_ranges car start end month r w alone h =
    let finish : List AvailabilityRange → Action CalendarResult =
      λ ranges. pure (calendar_result car month start end ranges) in
    let join : List AvailabilityRange → List AvailabilityRange → Action (List AvailabilityRange) =
      λ rentals ms. pure (append rentals ms) in
    let after_rentals : List AvailabilityRange → Action CalendarResult =
      λ rentals. ranges_of true car start end rentals >>= finish in
    let after_car : Car → Action CalendarResult =
      λ _. call (list_calendar_ranges car start end) >>= after_rentals in
    let (c, _, h1, _) = bind-ok (call (CarRepository.find_by_id car)) after_car w r h in
    let u : World = (call (CarRepository.find_by_id car) w).1 in
    let car_here = call_alone (CarRepository.find_by_id car) w alone in
    let u_db : u.db ≡ w.db = ap (λ x. x.1.db) car_here ∙ (car_same car w).0 in
    let u_alone : u.others ≡ [] = ap (λ x. x.1.others) car_here ∙ (car_same car w).1 ∙ alone in
    let (rentals, found, h2, _) =
      bind-ok (call (list_calendar_ranges car start end)) after_rentals u r h1 in
    let v : World = (call (list_calendar_ranges car start end) u).1 in
    let rentals_here = call_alone (list_calendar_ranges car start end) u u_alone in
    let v_db : v.db ≡ w.db =
      ap (λ x. x.1.db) rentals_here ∙ (rentals_same car start end u).0 ∙ u_db in
    let v_alone : v.others ≡ [] =
      ap (λ x. x.1.others) rentals_here ∙ (rentals_same car start end u).1 ∙ u_alone in
    let (all, joined, h3, _) = bind-ok (ranges_of true car start end rentals) finish v r h2 in
    let (ms, kept, h4, _) =
      bind-ok (call (list_maintenance_ranges car start end)) (join rentals) v all joined.result in
    let ms_here = call_alone (list_maintenance_ranges car start end) v v_alone in
    let rentals_are =
      rentals_effect car start end rentals u (ap (λ x. x.0) (sym rentals_here) ∙ found.result) in
    let ms_are =
      maintenances_effect car start end ms v (ap (λ x. x.0) (sym ms_here) ∙ kept.result) in
    let all_are : append rentals ms ≡ all = ground (arith, h4) in
    let blocked : block start end all [] ≡ r.blocked_days = ground (arith, h3) in
    sym blocked
    ∙ ap (λ xs. block start end xs []) (sym all_are)
    ∙ ap (λ xs. block start end (append xs ms) [])
        (rentals_are
          ∙ ap (λ db. ranges_by_start rental_range (select (books car start end) db.rentals)) u_db)
    ∙ ap
        (λ xs.
          block start end
            (append (ranges_by_start rental_range (select (books car start end) w.db.rentals)) xs)
            [])
        (ms_are
          ∙ ap
              (λ db.
                ranges_by_start maintenance_range
                  (select (maintains car start end) db.maintenances))
              v_db)
