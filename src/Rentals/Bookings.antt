-- ===== src/Rentals/Bookings.antt =====
-- Which bookings the table of rentals holds: `CreateWithAvailability` of
-- internal/repository/rental_repository.go against the constraint of migration 010.
use rentcar_backend.Base.{
  ℕ, suc, ◌/◌, ◌==◌, nat_eq, ◌≡◌, refl, Bool, true, false, ◌&&◌, ◌||◌, leb, if◌then◌else◌, some,
  Outcome, ok, err, List, [], ◌∷◌, exists, update, arith, Bool-cases, Outcome-cases, inl, inr,
}
use rentcar_backend.AppError.{Error, base, car_unavailable, double_booking}
use rentcar_backend.Models.{
  RentalStatus, requested, RentalRow, Car, maintenance, inactive, car_status_eq, rental_status_eq,
}
use rentcar_backend.Store.{Database, World, exec, transaction, attempt}
use rentcar_backend.Store.Constraints.{
  blocks, books, overlaps, maintains, clashes, is_disjoint, is_rental_status, fits_numeric,
  find_user, find_car, is_some,
}
use rentcar_backend.Rentals.Repository.{
  default_status, inserted, insert_rental, create_with_availability,
}
use rentcar_backend.Rentals.Lifecycle.{SyncResult, advance, sync_statement, sync_lifecycle}

no_clash :
    (r : RentalRow) (rs : List RentalRow)
    → exists (books r.car_id r.start_date r.end_date) rs ≡ false
    → exists (clashes r) rs ≡ false
no_clash r [] h = refl
no_clash r (x ∷ xs) h = ground (arith, no_clash r xs)

-- The row that a booking would add clashes with none where the span is free.
free_disjoint :
    (r : RentalRow) (now : ℕ) (db : Database)
    → is_disjoint db.rentals ≡ true
    → exists (books r.car_id r.start_date r.end_date) db.rentals ≡ false
    → is_disjoint (inserted r now db ∷ db.rentals) ≡ true
unfolding is_disjoint
free_disjoint r now db d h = ground (arith, no_clash (inserted r now db) db.rentals)

-- A request for a booking that the tables can take: its dates in order, an amount that fits, a known
-- status and customer.
pub record IsBookable (r : RentalRow) (db : Database) : Type 0 where
  pub ordered : leb r.start_date r.end_date ≡ true
  pub amount : fits_numeric r.total_amount ≡ true
  pub status : is_rental_status (default_status r.status) ≡ true
  pub known : is_some (find_user r.user_id db) ≡ true

-- The row that a booking adds: the next identifier, the time of the request, and `requested` where it has no status.
abbrev pub booked_row : RentalRow → ℕ → Database → RentalRow
booked_row r now db = record r {
  id = db.next_rental;
  status = if r.status == RentalStatus.other "" then requested else r.status;
  created_at = now;
  updated_at = now;
}

-- What a booking of car `c` answers, and the tables that it leaves.
abbrev pub booking_outcome : Car → RentalRow → ℕ → Database → Outcome Error RentalRow × Database
booking_outcome c r now db =
    if c.status == maintenance || c.status == inactive
    then (err (base car_unavailable), db)
    else if exists (books r.car_id r.start_date r.end_date) db.rentals
    then (err (base double_booking), db)
    else if exists (maintains r.car_id r.start_date r.end_date) db.maintenances
    then (err (base car_unavailable), db)
    else (
      ok (booked_row r now db),
      record db { rentals = booked_row r now db ∷ db.rentals; next_rental = suc db.next_rental },
    )

insert_runs :
    (r : RentalRow) (now : ℕ) (db : Database)
    → IsBookable r db
    → is_some (find_car r.car_id db) ≡ true
    → is_disjoint (booked_row r now db ∷ db.rentals) ≡ true
    → insert_rental (record r { status = default_status r.status }) now db
      ≡ ok (
        booked_row r now db,
        record db { rentals = booked_row r now db ∷ db.rentals; next_rental = suc db.next_rental },
      )
unfolding insert_rental
insert_runs r now db h car disjoint =
    let ordered : leb r.start_date r.end_date ≡ true = h.ordered in
    let amount : fits_numeric r.total_amount ≡ true = h.amount in
    let status : is_rental_status (default_status r.status) ≡ true = h.status in
    let known : is_some (find_user r.user_id db) ≡ true = h.known in ground arith

-- Where no call of the driver fails, the table of rentals is disjoint, and the request is bookable,
-- a booking of a car that exists is refused only for the car's status, a booking or a maintenance
-- that overlaps it, in this order, and then leaves the tables as they were; else it adds its row, with the
-- next identifier, and changes nothing else: the constraint on the table never fires.
pub create_with_availability_answer :
    (r : RentalRow) (c : Car) (w : World)
    → w.faults ≡ []
    → is_disjoint w.db.rentals ≡ true
    → IsBookable r w.db
    → find_car r.car_id w.db ≡ some c
    → ((create_with_availability r w).0, (create_with_availability r w).1.db)
      ≡ booking_outcome c r w.now w.db
unfolding create_with_availability transaction exec attempt
create_with_availability_answer r c w quiet disjoint h car =
    elim (Bool-cases (exists (books r.car_id r.start_date r.end_date) w.db.rentals)) [
      | inl booked ↦ ground arith
      | inr free ↦
          let inserts = insert_runs r w.now w.db h (ground arith) (
            free_disjoint (record r { status = default_status r.status }) w.now w.db disjoint
              free) in
          ground arith
    ]

-- `f` moves no booking in place or time, and none that did not block its car blocks it now.
record Releases (f : RentalRow → RentalRow) : Type 0 where
  car : (r : RentalRow) → (f r).car_id ≡ r.car_id
  start : (r : RentalRow) → (f r).start_date ≡ r.start_date
  end : (r : RentalRow) → (f r).end_date ≡ r.end_date
  status : (r : RentalRow) → blocks r.status ≡ false → blocks (f r).status ≡ false

or_both : (a b : Bool) → a || b ≡ false → (a ≡ false) × (b ≡ false)
or_both a b h = (ground arith, ground arith)

or_none : (a b : Bool) → a ≡ false → b ≡ false → a || b ≡ false
or_none a b h k = ground arith

released_and :
    (a a' b b' e o : Bool)
    → (a ≡ false → a' ≡ false)
    → (b ≡ false → b' ≡ false)
    → a && (e && b && o) ≡ false
    → a' && (e && b' && o) ≡ false
released_and a a' b b' e o ha hb h = ground arith

released_pair :
    (f : RentalRow → RentalRow) (r x : RentalRow)
    → Releases f
    → clashes r x ≡ false
    → clashes (f r) (f x) ≡ false
released_pair f r x h e =
    rw (h.car r, h.car x, h.start r, h.start x, h.end r, h.end x)
      (released_and (blocks r.status) (blocks (f r).status) (blocks x.status) (blocks (f x).status)
        (x.car_id == r.car_id) (overlaps x.start_date x.end_date r.start_date r.end_date)
        (h.status r) (h.status x) e)

released_clash :
    (f : RentalRow → RentalRow) (r : RentalRow) (xs : List RentalRow)
    → Releases f
    → exists (clashes r) xs ≡ false
    → exists (clashes (f r)) (update (λ _. true) f xs) ≡ false
released_clash f r [] h e = refl
released_clash f r (x ∷ xs) h e =
    let (here, later) = or_both (clashes r x) (exists (clashes r) xs) e in
    or_none (clashes (f r) (f x)) _ (released_pair f r x h here) (released_clash f r xs h later)

released_disjoint :
    (f : RentalRow → RentalRow) (rs : List RentalRow)
    → Releases f
    → is_disjoint rs ≡ true
    → is_disjoint (update (λ _. true) f rs) ≡ true
unfolding is_disjoint
released_disjoint f [] h d = refl
released_disjoint f (r ∷ rs) h d = ground (arith, released_clash f r rs h, released_disjoint f rs h)

advance-Releases : (day now : ℕ) (db : Database) → Releases (advance day db now)
advance-Releases day now db = record {
  car = λ r. ground arith;
  start = λ r. ground arith;
  end = λ r. ground arith;
  status = λ r h. ground arith;
}

sync_statement_runs :
    (day now : ℕ) (db : Database)
    → is_disjoint db.rentals ≡ true
    → (res : SyncResult) × (db' : Database) × (sync_statement day now db ≡ ok (res, db'))
unfolding sync_statement
sync_statement_runs day now db d =
    let kept : is_disjoint (update (λ _. true) (advance day db now) db.rentals) ≡ true =
      released_disjoint (advance day db now) db.rentals (advance-Releases day now db) d in
    elim (Outcome-cases (sync_statement day now db)) [
      | inl ((res, db'), e) ↦ (res, db', e)
      | inr (c, e) ↦ absurd (ground arith)
    ]

-- Where no call of the driver fails and the bookings are disjoint, the daily run succeeds: the moves
-- that it makes never break the constraint on the table.
pub sync_lifecycle_runs :
    (time : ℕ) (w : World)
    → w.faults ≡ []
    → is_disjoint w.db.rentals ≡ true
    → (res : SyncResult) × ((sync_lifecycle time w).0 ≡ ok res)
unfolding sync_lifecycle transaction exec attempt
sync_lifecycle_runs time w quiet d =
    let (res, db', e) = sync_statement_runs (time / 86_400_000_000_000) w.now w.db d in
    (res, ground arith)
