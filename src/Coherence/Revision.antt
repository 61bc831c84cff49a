-- ===== src/Coherence/Revision.antt =====
-- Changes that rewrite rows in place, one by one, and leave identifiers alone.
use mathlib.Core.Option
use rentcar_backend.Base.{
  ℕ, ◌==◌, nat_eq, ◌≡◌, refl, sym, ◌∙◌, Bool, true, none, some, Option, update, touched,
  find-update, DistinctBy-update, All-update, arith,
}
use rentcar_backend.Models.{RentalRow, Payment}
use rentcar_backend.Store.{Database}
use rentcar_backend.Store.Constraints.{find_rental}
use rentcar_backend.Payments.Repository.{payment_of}
use rentcar_backend.Coherence.{IsCoherent, fits}

pub map-some {ℓ} :
    {A : Type ℓ} (f : A → A) (o : Option A) {b : A}
    → Option.map f o ≡ some b
    → (a : A) × (o ≡ some a) × (b ≡ f a)
map-some f none e = ground arith
map-some f (some a) e = (a, refl, ground arith)

-- `db'` is `db` with the rentals that pass `tr` taken through `g`, and the payments that pass `tp`
-- through `f`; identifiers and sequences stay.
pub record Revises (tr : RentalRow → Bool) (g : RentalRow → RentalRow) (tp : Payment → Bool)
    (f : Payment → Payment) (db db' : Database) : Type 0 where
  pub rentals : db'.rentals ≡ update tr g db.rentals
  pub payments : db'.payments ≡ update tp f db.payments
  pub next_rental : db'.next_rental ≡ db.next_rental
  pub next_payment : db'.next_payment ≡ db.next_payment
  pub rental_id : (r : RentalRow) → (g r).id ≡ r.id
  pub payment_id : (p : Payment) → (f p).id ≡ p.id
  pub owner : (p : Payment) → (f p).rental_id ≡ p.rental_id

module _ {tr : RentalRow → Bool} {g : RentalRow → RentalRow} {tp : Payment → Bool}
    {f : Payment → Payment} {db db' : Database} (h : IsCoherent db)
    (v : Revises tr g tp f db db') where
  find_rental_revised : (i : ℕ) → find_rental i db' ≡ Option.map (touched tr g) (find_rental i db)
  find_rental_revised i =
      rw v.rentals (find-update (λ r. r.id == i) tr g db.rentals (λ r. rw (v.rental_id r)))

  payment_of_revised : (i : ℕ) → payment_of i db' ≡ Option.map (touched tp f) (payment_of i db)
  payment_of_revised i =
      rw v.payments (find-update (λ p. p.rental_id == i) tp f db.payments (λ p. rw (v.owner p)))

  -- A revision keeps the invariant where each new status fits the new payment.
  pub revise-IsCoherent :
      ((id : ℕ) (r : RentalRow)
        → find_rental id db ≡ some r
        → fits (touched tr g r).status (Option.map (touched tp f) (payment_of id db)) ≡ true)
      → IsCoherent db'
  revise-IsCoherent keep = record {
    fit = λ i r er.
        let (r0, e0, e1) =
          map-some (touched tr g) (find_rental i db) (sym (find_rental_revised i) ∙ er) in
        rw (e1, payment_of_revised i) (keep i r0 e0);
    rental_ids = rw v.rentals (DistinctBy-update _ tr g db.rentals v.rental_id h.rental_ids);
    payment_ids = rw v.payments (DistinctBy-update _ tp f db.payments v.payment_id h.payment_ids);
    owners = rw v.payments (DistinctBy-update _ tp f db.payments v.owner h.owners);
    payments_below =
        rw (v.payments, v.next_payment)
          (All-update _ tp f db.payments (λ p b. ground (arith, v.payment_id p)) h.payments_below);
    owners_below =
        rw (v.payments, v.next_rental)
          (All-update _ tp f db.payments (λ p b. ground (arith, v.owner p)) h.owners_below);
    rentals_below =
        rw (v.rentals, v.next_rental)
          (All-update _ tr g db.rentals (λ r b. ground (arith, v.rental_id r)) h.rentals_below);
  }
