-- ===== src/Coherence/Lifecycle.antt =====
-- The hourly run and the invariant: it fails the pending payment of each rental that it cancels.
use mathlib.Core.Option
use rentcar_backend.Base.{
  ℕ, ◌/◌, ◌==◌, nat_eq, ◌≡◌, refl, true, Option, none, some, touched, arith, find_passes,
  exists_by_key,
}
use rentcar_backend.Models.{RentalRow, Payment, failed, payment_status_eq, rental_status_eq}
use rentcar_backend.Store.{Database, World}
use rentcar_backend.Store.Atomic.{IsAtomic, transaction-IsAtomic, keep_of_ok}
use rentcar_backend.Payments.Repository.{payment_of, set_status}
use rentcar_backend.Rentals.Lifecycle.{expired_unpaid, expired_id, fails, advance, sync_lifecycle}
use rentcar_backend.Rentals.Lifecycle.Settled.{sync_lifecycle-ok, sync_statement_effect}
use rentcar_backend.Coherence.{IsCoherent, fits}
use rentcar_backend.Coherence.Revision.{revise-IsCoherent}

pub sync_lifecycle-IsAtomic : (time : ℕ) → IsAtomic (sync_lifecycle time)
unfolding sync_lifecycle
sync_lifecycle-IsAtomic time = transaction-IsAtomic _

-- The fields of a row and of its payment, by cases on what day it is.
step_fits :
    (day now : ℕ) (db : Database) (r : RentalRow) (o : Option Payment)
    → expired_id day db r.id ≡ expired_unpaid day r
    → ((p : Payment) → o ≡ some p → p.rental_id ≡ r.id)
    → fits r.status o ≡ true
    → fits
        (advance day db now r).status
        (Option.map (touched (fails day db) (set_status failed now)) o)
      ≡ true
step_fits day now db r none expired own fit = ground arith
step_fits day now db r (some p) expired own fit = ground (arith, own p refl)

-- A run keeps the invariant where it holds at the start, whether it succeeds or not.
pub sync_lifecycle-IsCoherent :
    (time : ℕ) (w : World) → IsCoherent w.db → IsCoherent (sync_lifecycle time w).1.db
sync_lifecycle-IsCoherent time w h =
    keep_of_ok IsCoherent (sync_lifecycle time) w (sync_lifecycle-IsAtomic time) h λ res e.
      let day : ℕ = time / 86_400_000_000_000 in
      let s = sync_statement_effect day w.now w.db res _ (sync_lifecycle-ok time w res e) in
      rw s.tables (
        revise-IsCoherent {tr = λ _. true} {g = advance day w.db w.now} {tp = fails day w.db}
          {f = set_status failed w.now} h
          (record {
            rentals = refl;
            payments = refl;
            next_rental = refl;
            next_payment = refl;
            rental_id = λ r. ground arith;
            payment_id = λ p. refl;
            owner = λ p. refl;
          })
          (λ i r er.
            let own : r.id ≡ i =
              ground (arith, find_passes (λ (x : RentalRow). x.id == i) w.db.rentals er) in
            step_fits day w.now w.db r (payment_of i w.db)
              (exists_by_key (λ x. x.id) (expired_unpaid day) r.id w.db.rentals r h.rental_ids
                (simp own er))
              (λ p ep.
                ground (arith, find_passes (λ (x : Payment). x.rental_id == i) w.db.payments ep))
              (h.fit i r er)))
