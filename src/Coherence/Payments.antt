-- ===== src/Coherence/Payments.antt =====
-- Each handler of the payment repository keeps the invariant.
use mathlib.Core.Option
use native.Mathlib.Decide.{ℕ_discrete}
use rentcar_backend.Base.{
  ℕ, ◌==◌, nat_eq, ◌≡◌, ◌≢◌, refl, true, false, Bool, Option, none, some, find, touched, arith,
  find_passes, find_by_key,
}
use rentcar_backend.Models.{
  RentalRow, rental_status_eq, PaymentStatus, pending, Payment, payment_status_eq,
}
use rentcar_backend.Store.{Database, World}
use rentcar_backend.Store.Atomic.{keep_of_ok}
use rentcar_backend.Store.Constraints.{find_rental}
use rentcar_backend.Payments.Repository.{
  has_status, confirm, fail_payment, refund, payment_of, payment_by_id,
}
use rentcar_backend.Payments.Repository.Effects.{
  confirm-IsAtomic, fail_payment-IsAtomic, refund-IsAtomic, confirm_effect, fail_payment_effect,
  refund_effect,
}
use rentcar_backend.Coherence.{IsCoherent, fits}
use rentcar_backend.Coherence.Revision.{Revises, revise-IsCoherent}

-- A payment `p` moves on, and of the rentals only its own does.
module _ (id : ℕ) (s : PaymentStatus) {tr : RentalRow → Bool} {g : RentalRow → RentalRow}
    {f : Payment → Payment} {db db' : Database} (p : Payment) (h : IsCoherent db)
    (v : Revises tr g (has_status id s) f db db')
    (e : find (has_status id s) db.payments ≡ some p) where
  -- the payment is the one of its rental, has its status and its identifier
  settled_facts :
      (payment_of p.rental_id db ≡ some p)
      × (payment_by_id p.id db ≡ some p)
      × (p.status ≡ s)
      × (p.id ≡ id)
  settled_facts = (
    find_by_key (λ x. x.rental_id) _ db.payments p h.owners e,
    find_by_key (λ x. x.id) _ db.payments p h.payment_ids e,
    ground (
      arith,
      find_passes (has_status id s) db.payments e,
      (payment_status_eq.equal_iff p.status s).0,
    ),
    ground (arith, find_passes (has_status id s) db.payments e),
  )

  -- another payment is not touched
  untouched :
      (i : ℕ) (q : Payment) → payment_of i db ≡ some q → i ≢ p.rental_id → has_status id s q ≡ false
  untouched i q eq ne = ground (
    arith,
    settled_facts,
    find_passes (λ (x : Payment). x.rental_id == i) db.payments eq,
    find_by_key (λ (x : Payment). x.id) _ db.payments q h.payment_ids eq,
  )

  kept_fits :
      (i : ℕ) (r : RentalRow)
      → find_rental i db ≡ some r
      → i ≢ p.rental_id
      → (o : Option Payment) → payment_of i db ≡ o
      → fits r.status (Option.map (touched (has_status id s) f) o) ≡ true
  kept_fits i r er ne none eq = rw eq at (h.fit i r er)
  kept_fits i r er ne (some q) eq = rw (untouched i q eq ne) (rw eq at (h.fit i r er))

  settled_fits :
      ((r : RentalRow) → r.id ≢ p.rental_id → tr r ≡ false)
      → ((r : RentalRow)
          → r.id ≡ p.rental_id
          → p.status ≡ s
          → fits r.status (some p) ≡ true
          → fits (touched tr g r).status (some (f p)) ≡ true)
      → (i : ℕ) (r : RentalRow) → find_rental i db ≡ some r
      → fits (touched tr g r).status (Option.map (touched (has_status id s) f) (payment_of i db))
        ≡ true
  settled_fits others own i r er = elim (ℕ_discrete i p.rental_id) [
    | yes same ↦
        (let row : r.id ≡ p.rental_id =
            ground (arith, find_passes (λ (x : RentalRow). x.id == i) db.rentals er) in
          let paid : payment_of i db ≡ some p = rw same settled_facts.0 in
          let hit : has_status id s p ≡ true = find_passes (has_status id s) db.payments e in
          rw paid (rw hit (own r row settled_facts.2 (rw paid at (h.fit i r er)))))
    | no ne ↦
        (let miss : tr r ≡ false =
            others r (λ k.
              ne (ground (arith, find_passes (λ (x : RentalRow). x.id == i) db.rentals er))) in
          rw miss (kept_fits i r er ne (payment_of i db) refl))
  ]

  -- Such a change keeps the invariant.
  settle-IsCoherent :
      ((r : RentalRow) → r.id ≢ p.rental_id → tr r ≡ false)
      → ((r : RentalRow)
          → r.id ≡ p.rental_id
          → p.status ≡ s
          → fits r.status (some p) ≡ true
          → fits (touched tr g r).status (some (f p)) ≡ true)
      → IsCoherent db'
  settle-IsCoherent others own = revise-IsCoherent h v (settled_fits others own)

-- Confirming a payment keeps the invariant, whether it succeeds or not.
pub confirm-IsCoherent : (id : ℕ) (w : World) → IsCoherent w.db → IsCoherent (confirm id w).1.db
confirm-IsCoherent id w h = keep_of_ok IsCoherent (confirm id) w (confirm-IsAtomic id) h λ a e.
    let (p, found, same, hit) = confirm_effect id w e in
    rw same (
      settle-IsCoherent id pending p h
        (record {
          rentals = refl;
          payments = refl;
          next_rental = refl;
          next_payment = refl;
          rental_id = λ r. refl;
          payment_id = λ q. refl;
          owner = λ q. refl;
        })
        found (λ r ne. ground arith) (λ r row is fit. ground arith))

-- Failing a payment keeps the invariant.
pub fail_payment-IsCoherent :
    (id : ℕ) (w : World) → IsCoherent w.db → IsCoherent (fail_payment id w).1.db
fail_payment-IsCoherent id w h =
    keep_of_ok IsCoherent (fail_payment id) w (fail_payment-IsAtomic id) h λ a e.
      let (p, found, same) = fail_payment_effect id w e in
      rw same (
        settle-IsCoherent id pending p h
          (record {
            rentals = refl;
            payments = refl;
            next_rental = refl;
            next_payment = refl;
            rental_id = λ r. refl;
            payment_id = λ q. refl;
            owner = λ q. refl;
          })
          found (λ r ne. ground arith) (λ r row is fit. ground arith))

-- Refunding a payment keeps the invariant.
pub refund-IsCoherent : (id : ℕ) (w : World) → IsCoherent w.db → IsCoherent (refund id w).1.db
refund-IsCoherent id w h = keep_of_ok IsCoherent (refund id) w (refund-IsAtomic id) h λ a e.
    let (p, found, same) = refund_effect id w e in
    rw same (
      settle-IsCoherent id PaymentStatus.paid p h
        (record {
          rentals = refl;
          payments = refl;
          next_rental = refl;
          next_payment = refl;
          rental_id = λ r. refl;
          payment_id = λ q. refl;
          owner = λ q. refl;
        })
        found (λ r ne. ground arith) (λ r row is fit. ground arith))
