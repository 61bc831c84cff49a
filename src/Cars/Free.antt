-- ===== src/Cars/Free.antt =====
-- The cars that are listed for a day are free on it.
use Prim.Native.Char.{Char}
use rentcar_backend.Base.{
  ◌&&◌, ◌==◌, nat_eq, leb, exists, refl, ℕ, zero, suc, ◌≤◌, ◌≡◌, Bool, true, false, List, [], ◌∷◌,
  ok, All, All-weaken, count, select, arith, Bool-cases, inl, inr,
}
use rentcar_backend.Models.{
  RentalStatus, rejected, RentalRow, MaintenanceStatus, scheduled, in_progress, CarMaintenance, Car,
}
use rentcar_backend.Dates.{is_zero_date}
use rentcar_backend.Listing.{take, drop, length, page_rows, length-take-drop, offset}
use rentcar_backend.Store.{Database, World, exec, attempt, call}
use rentcar_backend.Store.Constraints.{books, maintains}
use rentcar_backend.Cars.Repository.{is_free}
use rentcar_backend.Cars.Listing.{
  CarListFilter, CarListResult, is_listed_rental, is_listed_maintenance, list, matches, normalize,
}

module _ {ℓ} {A : Type ℓ} where
  All-select : (p : A → Bool) (xs : List A) → All (λ x. p x ≡ true) (select p xs)
  All-select p [] = tt
  All-select p (x ∷ xs) = elim (Bool-cases (p x)) [
    | inl passes ↦ rw passes (passes, All-select p xs)
    | inr fails ↦ rw fails (All-select p xs)
  ]

  All-drop {κ} : (P : A → Type κ) (n : ℕ) (xs : List A) → All P xs → All P (drop n xs)
  All-drop P zero xs h = h
  All-drop P (suc n) [] h = tt
  All-drop P (suc n) (x ∷ xs) h = All-drop P n xs h.1

  All-take {κ} : (P : A → Type κ) (n : ℕ) (xs : List A) → All P xs → All P (take n xs)
  All-take P zero xs h = tt
  All-take P (suc n) [] h = tt
  All-take P (suc n) (x ∷ xs) h = (h.0, All-take P n xs h.1)

-- The rows of a list, and their number.
list_rows :
    (fold : Char → Char) (f : CarListFilter) (r : CarListResult) (w : World)
    → w.others ≡ []
    → (list fold f w).0 ≡ ok r
    → (r.items
        ≡ take (normalize f).page_size (
            drop
              (offset (normalize f).page (normalize f).page_size)
              (select (matches fold (normalize f) w.db) w.db.cars)))
      × (r.total ≡ count (matches fold (normalize f) w.db) w.db.cars)
unfolding list exec attempt page_rows call
list_rows fold f r w alone h = (ground arith, ground arith)

-- The statuses that leave a car free, of a rental and of a maintenance.
abbrev pub is_over : RentalStatus → Bool
is_over rejected = true
is_over RentalStatus.cancelled = true
is_over RentalStatus.completed = true
is_over (RentalStatus.other _) = true
is_over _ = false

abbrev pub is_done : MaintenanceStatus → Bool
is_done scheduled = false
is_done in_progress = false
is_done _ = true

-- No rental of the car that is not over has the day, no maintenance that is not done has it, and `IsAvailable`
-- finds the car free on it.
pub record IsFreeOn (db : Database) (day : ℕ) (c : Car) : Type 0 where
  pub rentals :
      All
        (λ r. r.car_id ≡ c.id → r.start_date ≤ day → day ≤ r.end_date → is_over r.status ≡ true)
        db.rentals
  pub maintenances :
      All
        (λ m. m.car_id ≡ c.id → m.start_date ≤ day → day ≤ m.end_date → is_done m.status ≡ true)
        db.maintenances
  pub bookable : is_free c.id day day db ≡ true

module _ (car day : ℕ) where
  rentals_over :
      (rs : List RentalRow)
      → exists
          (λ r.
            r.car_id == car
            && is_listed_rental r.status
            && leb r.start_date day
            && leb day r.end_date)
          rs
        ≡ false
      → All
          (λ r. r.car_id ≡ car → r.start_date ≤ day → day ≤ r.end_date → is_over r.status ≡ true)
          rs
        × (exists (books car day day) rs ≡ false)
  rentals_over [] h = (tt, refl)
  rentals_over (r ∷ rs) h =
      let rest = rentals_over rs (ground (arith, h)) in
      ((λ own starts ends. ground (arith, h, own, starts, ends), rest.0), ground (arith, h, rest.1))

  maintenances_done :
      (ms : List CarMaintenance)
      → exists
          (λ m.
            m.car_id == car
            && is_listed_maintenance m.status
            && leb m.start_date day
            && leb day m.end_date)
          ms
        ≡ false
      → All
          (λ m. m.car_id ≡ car → m.start_date ≤ day → day ≤ m.end_date → is_done m.status ≡ true)
          ms
        × (exists (maintains car day day) ms ≡ false)
  maintenances_done [] h = (tt, refl)
  maintenances_done (m ∷ ms) h =
      let rest = maintenances_done ms (ground (arith, h)) in
      ((λ own starts ends. ground (arith, h, own, starts, ends), rest.0), ground (arith, h, rest.1))

matches_free :
    (fold : Char → Char) (f : CarListFilter) (db : Database) (c : Car)
    → is_zero_date f.available_on ≡ false
    → matches fold f db c ≡ true
    → IsFreeOn db f.available_on c
matches_free fold f db c asked h =
    let (over, unbooked) = rentals_over c.id f.available_on db.rentals (ground (arith, asked, h)) in
    let (done, kept) =
      maintenances_done c.id f.available_on db.maintenances (ground (arith, asked, h)) in
    record { rentals = over; maintenances = done; bookable = ground (arith, unbooked, kept) }

-- A list of cars that asks for a day, with no other request in between, has at most a hundred cars, and every one
-- of them is free on that day: no rental of it that is open or running and no maintenance of it that is scheduled
-- or in progress has the day, and IsAvailable would find it free; its total counts all the cars that match.
pub list_free :
    (fold : Char → Char) (f : CarListFilter) (r : CarListResult) (w : World)
    → w.others ≡ []
    → is_zero_date f.available_on ≡ false
    → (list fold f w).0 ≡ ok r
    → All (IsFreeOn w.db f.available_on) r.items
      × (length r.items ≤ 100)
      × (r.total ≡ count (matches fold (normalize f) w.db) w.db.cars)
list_free fold f r w alone asked h =
    let (rows, total) = list_rows fold f r w alone h in
    let g : CarListFilter = normalize f in
    let found : List Car = select (matches fold g w.db) w.db.cars in
    let page : ℕ = offset g.page g.page_size in
    let all : All (IsFreeOn w.db f.available_on) (take g.page_size (drop page found)) =
      All-take _ g.page_size (drop page found) (
        All-drop _ page found (
          All-weaken _ _ found (λ c m. matches_free fold g w.db c asked m)
            (All-select (matches fold g w.db) w.db.cars))) in
    let size : length (take g.page_size (drop page found)) ≤ g.page_size =
      (length-take-drop g.page_size page found).0 in
    let bound : g.page_size ≤ 100 = ground arith in
    (rw rows all, rw rows (omega (arith, size, bound)), total)
