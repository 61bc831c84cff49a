-- ===== src/Cars/Repository.antt =====
-- internal/repository/car_repository.go: the rows of cars, and whether a car is free.
use mathlib.Core.Option
use rentcar_backend.Base.{
  ℕ, suc, ◌==◌, nat_eq, string_eq, if◌then◌else◌, Bool, not, ◌&&◌, ◌||◌, leb, ltb, ◌∷◌, some, none,
  Outcome, ok, exists, count, update, select,
}
use rentcar_backend.AppError.{base, not_found, Cause}
use rentcar_backend.Models.{Car, CarStatus, available, car_status_eq}
use rentcar_backend.Store.{Database, Action, ◌>>=◌, require, gets, exec, Statement}
use rentcar_backend.Store.Constraints.{
  one_row, refuse_if, find_car, books, maintains, is_car_status, fits_numeric, numeric_overflow,
  check_violation, foreign_key_violation, unique_violation,
}
use rentcar_backend.Rentals.Repository.{when}

-- The row that an insertion makes.
abbrev pub inserted : Car → ℕ → Database → Car
inserted c now db = record c { id = db.next_car; created_at = now; updated_at = now }

-- The checks of migrations 002 and 019 on one row, and the result unless they fail.
car_checks : {A : Type 0} → Car → Outcome Cause A → Outcome Cause A
car_checks c rest = refuse_if (not (fits_numeric c.daily_rate)) numeric_overflow (
    refuse_if (ltb c.year 1900) (check_violation "cars_year_check") (
      refuse_if (c.daily_rate == 0) (check_violation "cars_daily_rate_check") (
        refuse_if (ltb c.seats 1 || ltb 12 c.seats) (check_violation "cars_seats_check") (
          refuse_if (c.fuel == "") (check_violation "cars_fuel_check") (
            refuse_if (c.transmission == "") (check_violation "cars_transmission_check") (
              refuse_if (not (is_car_status c.status)) (check_violation "cars_status_check")
                rest))))))

-- `INSERT INTO cars … RETURNING id, created_at, updated_at`
insert_car : Car → ℕ → Statement Car
unfolding car_checks
insert_car c now db =
    let row = inserted c now db in
    car_checks c (
      refuse_if (exists (λ x. x.plate_number == c.plate_number) db.cars)
        (unique_violation "cars_plate_number_key")
        (ok (row, record db { cars = row ∷ db.cars; next_car = suc db.next_car })))

abbrev default_status : CarStatus → CarStatus
default_status s = if s == CarStatus.other "" then available else s

-- `Create`
unfoldable pub create : Car → Action Car
unfolding insert_car
create car = do
  now ← gets (λ w. w.now)
  exec (insert_car (record car { status = default_status car.status }) now)

-- `UPDATE cars SET … WHERE id = $11 RETURNING created_at, updated_at`: all but the identifier and the
-- time of creation come from the given car.
abbrev pub updated : Car → ℕ → Car → Car
updated c now old = record c { created_at = old.created_at; updated_at = now }

update_car : Car → ℕ → Statement Car
unfolding car_checks
update_car c now db = elim (find_car c.id db) [
  | none ↦ one_row none
  | some old ↦ car_checks c (
      refuse_if (exists (λ x. not (x.id == c.id) && x.plate_number == c.plate_number) db.cars)
        (unique_violation "cars_plate_number_key")
        (ok (
          updated c now old,
          record db { cars = update (λ x. x.id == c.id) (updated c now) db.cars },
        )))
]

-- `Update`
unfoldable pub update_by_id : Car → Action Car
unfolding update_car
update_by_id car = do now ← gets (λ w. w.now); exec (update_car car now)

-- `DELETE FROM cars WHERE id = $1`: rentals restrict it (migration 003), maintenances go with it
-- (migration 012).
delete_car : ℕ → Statement ℕ
delete_car id db =
    let affected = count (λ c. c.id == id) db.cars in
    refuse_if (leb 1 affected && exists (λ r. r.car_id == id) db.rentals)
      (foreign_key_violation "rentals_car_id_fkey")
      (ok (
        affected,
        record db {
          cars = select (λ c. not (c.id == id)) db.cars;
          maintenances = select (λ m. not (m.car_id == id)) db.maintenances;
        },
      ))

-- `Delete`
unfoldable pub delete : ℕ → Action (Unit {0})
unfolding delete_car
delete id = do affected ← exec (delete_car id); require (when (affected == 0) (base not_found))

-- `FindByID`
unfoldable pub find_by_id : ℕ → Action Car
find_by_id id = exec (λ db. one_row (Option.map (λ c. (c, db)) (find_car id db)))

-- No rental and no maintenance of the car holds a day of `start` to `end`.
abbrev pub is_free : ℕ → ℕ → ℕ → Database → Bool
is_free car start end db =
    not (exists (books car start end) db.rentals)
    && not (exists (maintains car start end) db.maintenances)

-- `IsAvailable`
unfoldable pub is_available : ℕ → ℕ → ℕ → Action Bool
is_available car start end = exec (λ db. ok (is_free car start end db, db))
