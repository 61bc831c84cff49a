-- ===== src/Rentals/Repository/Effects.antt =====
-- What a successful call of each handler of the rental repository has read and done.
use rentcar_backend.Base.{
  ℕ, suc, ◌==◌, nat_eq, ◌≡◌, true, false, some, ok, find, exists, update, arith, inl, inr,
  Option-cases, ◌∷◌, if◌then◌else◌,
}
use rentcar_backend.Models.{RentalStatus, RentalRow, Rental, void, rental_status_eq}
use rentcar_backend.Store.{
  Database, World, exec, transaction, update_rentals, update_invoices, set_rental_status,
  set_invoice_status,
}
use rentcar_backend.Store.Atomic.{IsAtomic, transaction-IsAtomic}
use rentcar_backend.Store.Constraints.{
  find_rental, find_car, find_user, is_some, books, maintains, is_disjoint, is_rental_status,
}
use rentcar_backend.Rentals.Repository.{
  inserted, create_with_availability, find_by_id, update_status, cancel, is_open_invoice,
  voids_invoices, default_status, insert_rental,
}

pub create_with_availability-IsAtomic : (r : RentalRow) → IsAtomic (create_with_availability r)
unfolding create_with_availability
create_with_availability-IsAtomic r = transaction-IsAtomic _

pub update_status-IsAtomic : (id : ℕ) (s : RentalStatus) → IsAtomic (update_status id s)
unfolding update_status
update_status-IsAtomic id s = transaction-IsAtomic _

pub cancel-IsAtomic : (id : ℕ) → IsAtomic (cancel id)
unfolding cancel
cancel-IsAtomic id = transaction-IsAtomic _

-- Reading a rental changes nothing, and gives its row with its payment.
pub find_by_id_effect :
    (id : ℕ) (w : World) (rental : Rental)
    → (find_by_id id w).0 ≡ ok rental
    → (find_rental id w.db ≡ some rental.row)
      × (rental.payment ≡ find (λ p. p.rental_id == rental.row.id) w.db.payments)
unfolding find_by_id exec
find_by_id_effect id w rental h = elim (Option-cases (find_rental id w.db)) [
  | inl missing ↦ absurd (ground arith)
  | inr (r, e) ↦ elim (Option-cases (find_user r.user_id w.db)) [
    | inl missing ↦ absurd (ground arith)
    | inr (u, eu) ↦ elim (Option-cases (find_car r.car_id w.db)) [
      | inl missing ↦ absurd (ground arith)
      | inr (c, ec) ↦ (ground arith, ground arith)
    ]
  ]
]

pub find_by_id_same : (id : ℕ) (w : World) → (find_by_id id w).1.db ≡ w.db
unfolding find_by_id exec
find_by_id_same id w = ground arith

-- What an insertion has found, and the row that it adds.
pub record Inserted (r row : RentalRow) (now : ℕ) (db db' : Database) : Type 0 where
  pub row_is : row ≡ inserted r now db
  pub status_known : is_rental_status r.status ≡ true
  pub car_known : is_some (find_car r.car_id db) ≡ true
  pub disjoint : is_disjoint (inserted r now db ∷ db.rentals) ≡ true
  pub added :
      db' ≡ record db { rentals = inserted r now db ∷ db.rentals; next_rental = suc db.next_rental }

insert_rental_effect :
    (r row : RentalRow) (now : ℕ) (db db' : Database)
    → insert_rental r now db ≡ ok (row, db')
    → Inserted r row now db db'
unfolding insert_rental
insert_rental_effect r row now db db' h = ground arith

-- What the guards of a booking have found.
pub record Guarded (r : RentalRow) (db : Database) : Type 0 where
  pub not_booked : exists (books r.car_id r.start_date r.end_date) db.rentals ≡ false
  pub not_maintained : exists (maintains r.car_id r.start_date r.end_date) db.maintenances ≡ false

create-Guarded :
    (r row : RentalRow) (w : World)
    → (create_with_availability r w).0 ≡ ok row
    → Guarded r w.db
      × (insert_rental (record r { status = default_status r.status }) w.now w.db
          ≡ ok (row, (create_with_availability r w).1.db))
unfolding create_with_availability transaction
create-Guarded r row w h = ground arith

-- A booking that succeeds has passed the guards and added its row.
pub create_with_availability_effect :
    (r row : RentalRow) (w : World)
    → (create_with_availability r w).0 ≡ ok row
    → Guarded r w.db
      × Inserted
          (record r { status = default_status r.status })
          row
          w.now
          w.db
          (create_with_availability r w).1.db
create_with_availability_effect r row w h =
    let (guarded, insertion) = create-Guarded r row w h in
    (guarded, insert_rental_effect _ row w.now w.db _ insertion)

-- A rental that is moved was there, and its open invoices are void if it is cancelled or rejected.
pub update_status_effect :
    (id : ℕ) (s : RentalStatus) (w : World)
    → (update_status id s w).0 ≡ ok tt
    → (update_status id s w).1.db ≡ record (w.db) {
      rentals = update (λ r. r.id == id) (set_rental_status s w.now) w.db.rentals;
      invoices =
          if voids_invoices s
          then update (is_open_invoice id) (set_invoice_status void w.now) w.db.invoices
          else w.db.invoices;
    }
unfolding update_status transaction update_rentals update_invoices
update_status_effect id s w h = ground arith

pub cancel_effect :
    (id : ℕ) (w : World)
    → (cancel id w).0 ≡ ok tt
    → (cancel id w).1.db ≡ record (w.db) {
      rentals =
          update (λ r. r.id == id) (set_rental_status RentalStatus.cancelled w.now) w.db.rentals;
      invoices = update (is_open_invoice id) (set_invoice_status void w.now) w.db.invoices;
    }
unfolding cancel transaction update_rentals update_invoices
cancel_effect id w h = ground arith
