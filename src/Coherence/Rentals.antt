-- ===== src/Coherence/Rentals.antt =====
-- The handlers of the rental repository and the invariant.
use mathlib.Core.Option
use native.Mathlib.Decide.{ℕ_discrete}
use rentcar_backend.Base.{
  ℕ, ◌==◌, nat_eq, ◌≡◌, refl, true, false, Option, none, some, find, update, touched, arith, ◌∷◌,
  find_passes, exists_of_below, exists_of_find, All-weaken, List, [], ap,
}
use rentcar_backend.Models.{RentalStatus, RentalRow, Payment, rental_status_eq}
use rentcar_backend.Store.{Database, World, set_rental_status}
use rentcar_backend.Store.Atomic.{keep_of_ok}
use rentcar_backend.Store.Constraints.{find_rental}
use rentcar_backend.Payments.Repository.{payment_of}
use rentcar_backend.Rentals.Repository.{
  create_with_availability, inserted, default_status, update_status, cancel,
}
use rentcar_backend.Rentals.Repository.Effects.{
  Inserted, create_with_availability-IsAtomic, create_with_availability_effect,
  update_status-IsAtomic, update_status_effect, cancel-IsAtomic, cancel_effect,
}
use rentcar_backend.Coherence.{IsCoherent, fits, unpaid_fits}
use rentcar_backend.Coherence.Revision.{revise-IsCoherent}

-- A new rental has no payment, and its status needs none.
Inserted-IsCoherent :
    (r row : RentalRow) (now : ℕ) (db db' : Database)
    → IsCoherent db
    → Inserted r row now db db'
    → unpaid_fits r.status ≡ true
    → IsCoherent db'
Inserted-IsCoherent r row now db db' h v u = rw v.added (record {
  fit = λ i x e. fit i x e (ℕ_discrete db.next_rental i);
  rental_ids =
      (exists_of_below (λ x. x.id) db.next_rental db.rentals h.rentals_below, h.rental_ids);
  payment_ids = h.payment_ids;
  owners = h.owners;
  payments_below = h.payments_below;
  owners_below = All-weaken _ _ db.payments (λ p b. omega arith) h.owners_below;
  rentals_below = (omega arith, All-weaken _ _ db.rentals (λ x b. omega arith) h.rentals_below);
})
  where
    unpaid : payment_of db.next_rental db ≡ none
    unpaid =
        exists_of_find _ db.payments
          (exists_of_below (λ p. p.rental_id) db.next_rental db.payments h.owners_below)

    fit :
        (i : ℕ) (x : RentalRow)
        → find (λ y. y.id == i) (inserted r now db ∷ db.rentals) ≡ some x
        → Dec (db.next_rental ≡ i)
        → fits x.status (payment_of i db) ≡ true
    fit i x e (yes same) =
        let paid : payment_of i db ≡ none = rw (← same) unpaid in rw paid (ground arith)
    fit i x e (no ne) = ground (arith, h.fit i x)

-- A booking keeps the invariant, whether it succeeds or not.
pub create_with_availability-IsCoherent :
    (r : RentalRow) (w : World)
    → IsCoherent w.db
    → unpaid_fits (default_status r.status) ≡ true
    → IsCoherent (create_with_availability r w).1.db
create_with_availability-IsCoherent r w h u =
    keep_of_ok IsCoherent (create_with_availability r) w (create_with_availability-IsAtomic r) h
      λ row e.
        Inserted-IsCoherent _ row w.now w.db _ h (create_with_availability_effect r row w e).1 u

-- A rental that moves to a status that fits its payment.
moved_fits :
    (id : ℕ) (s : RentalStatus) (now : ℕ) (db : Database)
    → IsCoherent db
    → fits s (payment_of id db) ≡ true
    → (i : ℕ) (r : RentalRow) → find_rental i db ≡ some r
    → fits (touched (λ x. x.id == id) (set_rental_status s now) r).status (payment_of i db) ≡ true
moved_fits id s now db h fit i r e = elim (ℕ_discrete i id) [
  | yes same ↦
      (let row : r.id ≡ i =
          ground (arith, find_passes (λ (x : RentalRow). x.id == i) db.rentals e) in
        let fit' : fits s (payment_of i db) ≡ true = rw same fit in ground arith)
  | no ne ↦ ground (arith, find_passes (λ (x : RentalRow). x.id == i) db.rentals e, h.fit i r e)
]

map-touched_none : (o : Option Payment) → Option.map (touched (λ _. false) (λ p. p)) o ≡ o
map-touched_none none = refl
map-touched_none (some p) = refl

update_nothing {ℓ} : {A : Type ℓ} (xs : List A) → update (λ _. false) (λ x. x) xs ≡ xs
update_nothing [] = refl
update_nothing (x ∷ xs) = ap (λ ys. x ∷ ys) (update_nothing xs)

pub moved-IsCoherent :
    (id : ℕ) (s : RentalStatus) (now : ℕ) (db db' : Database)
    → IsCoherent db
    → fits s (payment_of id db) ≡ true
    → db'.rentals ≡ update (λ x. x.id == id) (set_rental_status s now) db.rentals
    → db'.payments ≡ db.payments
    → db'.next_rental ≡ db.next_rental
    → db'.next_payment ≡ db.next_payment
    → IsCoherent db'
moved-IsCoherent id s now db db' h fit er ep nr np =
    revise-IsCoherent {tr = λ x. x.id == id} {g = set_rental_status s now} {tp = λ _. false}
      {f = λ p. p} h
      (record {
        rentals = er;
        payments = rw update_nothing ep;
        next_rental = nr;
        next_payment = np;
        rental_id = λ r. refl;
        payment_id = λ p. refl;
        owner = λ p. refl;
      })
      (λ i r e. rw map-touched_none (moved_fits id s now db h fit i r e))

pub update_status-IsCoherent :
    (id : ℕ) (s : RentalStatus) (w : World)
    → IsCoherent w.db
    → fits s (payment_of id w.db) ≡ true
    → IsCoherent (update_status id s w).1.db
update_status-IsCoherent id s w h fit =
    keep_of_ok IsCoherent (update_status id s) w (update_status-IsAtomic id s) h λ a e.
      rw (update_status_effect id s w e)
        (moved-IsCoherent id s w.now w.db _ h fit refl refl refl refl)

pub cancel-IsCoherent :
    (id : ℕ) (w : World)
    → IsCoherent w.db
    → fits RentalStatus.cancelled (payment_of id w.db) ≡ true
    → IsCoherent (cancel id w).1.db
cancel-IsCoherent id w h fit = keep_of_ok IsCoherent (cancel id) w (cancel-IsAtomic id) h λ a e.
    rw (cancel_effect id w e)
      (moved-IsCoherent id RentalStatus.cancelled w.now w.db _ h fit refl refl refl refl)
