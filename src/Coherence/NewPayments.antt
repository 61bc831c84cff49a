-- ===== src/Coherence/NewPayments.antt =====
-- A new payment and the invariant.
use native.Mathlib.Decide.{ℕ_discrete}
use rentcar_backend.Base.{
  ℕ, ◌==◌, nat_eq, ◌≡◌, ◌≢◌, refl, sym, ◌∙◌, true, none, some, ◌⊎◌, update, touched, arith, inl,
  inr, find-update, find_passes, exists_of_below, exists_of_find, All-weaken, All-update, All_found,
  DistinctBy-update, if◌then◌else◌,
}
use rentcar_backend.Models.{
  RentalStatus, approved, pending_payment, RentalRow, pending, Payment, rental_status_eq,
}
use rentcar_backend.Store.{Database, World, set_rental_status}
use rentcar_backend.Store.Atomic.{keep_of_ok}
use rentcar_backend.Store.Constraints.{find_rental}
use rentcar_backend.Payments.Repository.{
  payment_of, inserted, create_for_rental, default_status, is_approved_row,
}
use rentcar_backend.Payments.Repository.Effects.{
  Inserted, awaiting, create_for_rental-IsAtomic, create_for_rental_effect,
}
use rentcar_backend.Coherence.{IsCoherent, fits}
use rentcar_backend.Coherence.Revision.{map-some}

module _ (p row : Payment) (now : ℕ) (db mid : Database) (r : RentalRow) (h : IsCoherent db)
    (found : find_rental p.rental_id db ≡ some r) (v : Inserted p row now db mid) where
  -- the rental had no payment
  unpaid : payment_of p.rental_id db ≡ none
  unpaid = exists_of_find (λ x. x.rental_id == p.rental_id) db.payments v.first

  -- a rental that already waits for its payment has one
  not_waiting : r.status ≢ pending_payment
  not_waiting e = cc (rw (unpaid, e) at (h.fit p.rental_id r found))

  abbrev waiting : Database
  waiting = record mid {
    rentals =
        update (is_approved_row p.rental_id) (set_rental_status pending_payment now) mid.rentals;
  }

  payment_of-waiting :
      (i : ℕ)
      → payment_of i waiting
        ≡ (if p.rental_id == i then some (inserted p now db) else payment_of i db)
  payment_of-waiting i = rw v.added refl

  waiting-fits :
      p.status ≡ pending
      → r.status ≡ approved
      → (i : ℕ) (x : RentalRow) → find_rental i waiting ≡ some x
      → fits x.status (payment_of i waiting) ≡ true
  waiting-fits new_status old_status i x e =
      let (x0, e0, e1) =
        map-some (touched (is_approved_row p.rental_id) (set_rental_status pending_payment now))
          (find_rental i db)
          (sym (
              rw v.added (
                find-update (λ (y : RentalRow). y.id == i) (is_approved_row p.rental_id)
                  (set_rental_status pending_payment now) db.rentals (λ y. refl)))
            ∙ e) in
      let own : x0.id ≡ i =
        ground (arith, find_passes (λ (y : RentalRow). y.id == i) db.rentals e0) in
      elim (ℕ_discrete p.rental_id i) [
        | yes same ↦
            (let e2 : some x0 ≡ some r = sym e0 ∙ rw (← same) found in
              rw payment_of-waiting (ground arith))
        | no ne ↦ rw payment_of-waiting (ground (arith, h.fit i x0 e0))
      ]

  waiting-IsCoherent : p.status ≡ pending → r.status ≡ approved → IsCoherent waiting
  waiting-IsCoherent new_status old_status = record {
    fit = waiting-fits new_status old_status;
    rental_ids = rw v.added (
        DistinctBy-update (λ x. x.id) (is_approved_row p.rental_id)
          (set_rental_status pending_payment now) db.rentals (λ x. refl) h.rental_ids);
    payment_ids =
        rw v.added
          (exists_of_below (λ x. x.id) db.next_payment db.payments h.payments_below, h.payment_ids);
    owners = rw v.added (v.first, h.owners);
    payments_below =
        rw v.added (omega arith, All-weaken _ _ db.payments (λ x b. omega arith) h.payments_below);
    owners_below = rw v.added (
      ground (
        arith,
        All_found _ _ db.rentals r h.rentals_below found,
        find_passes (λ (x : RentalRow). x.id == p.rental_id) db.rentals found,
      ),
      h.owners_below,
    );
    rentals_below = rw v.added (
        All-update _ (is_approved_row p.rental_id) (set_rental_status pending_payment now)
          db.rentals (λ x b. ground arith) h.rentals_below);
  }

-- Creating the payment of an approved rental, or of one that waits for it, keeps the invariant.
pub create_for_rental-IsCoherent :
    (p : Payment) (s : RentalStatus) (w : World)
    → IsCoherent w.db
    → default_status p.status ≡ pending
    → (s ≡ approved) ⊎ (s ≡ pending_payment)
    → IsCoherent (create_for_rental p s w).1.db
create_for_rental-IsCoherent p s w h new_status expected =
    keep_of_ok IsCoherent (create_for_rental p s) w (create_for_rental-IsAtomic p s) h λ row e.
      let (r, found, is, mid, insertion, final) = create_for_rental_effect p row s w e in
      let q : Payment = record p { status = default_status p.status } in
      elim expected [
        | inl yes_approved ↦
            (let same : awaiting p.rental_id s w.now mid
                  ≡ waiting q row w.now w.db mid r h found insertion =
                rw yes_approved refl in
              rw (final, same)
                (waiting-IsCoherent q row w.now w.db mid r h found insertion new_status
                  (is ∙ yes_approved)))
        | inr yes_waiting ↦
            absurd (not_waiting q row w.now w.db mid r h found insertion (is ∙ yes_waiting))
      ]
