-- ===== src/Coherence.antt =====
-- The invariant that joins the tables of rentals and payments: what the status of a rental says of
-- its payment, and the keys by which the two are found.
pub mod Revision
pub mod Payments
pub mod NewPayments
pub mod Lifecycle
pub mod Rentals
pub mod Guards
pub mod Services
pub mod Interference
use rentcar_backend.Base.{ℕ, ◌<◌, ◌≡◌, Bool, true, false, none, some, Option, All, DistinctBy}
use rentcar_backend.Models.{
  RentalStatus, requested, approved, rejected, pending_payment, confirmed, active, RentalRow,
  PaymentStatus, pending, failed, refunded, Payment,
}
use rentcar_backend.Store.{Database}
use rentcar_backend.Store.Constraints.{find_rental}
use rentcar_backend.Payments.Repository.{payment_by_id, payment_of}

-- What each status of a rental says of its payment.
abbrev pub status_fits : RentalStatus → PaymentStatus → Bool
status_fits requested failed = true
status_fits requested refunded = true
status_fits approved failed = true
status_fits approved refunded = true
status_fits rejected failed = true
status_fits rejected refunded = true
status_fits RentalStatus.cancelled failed = true
status_fits RentalStatus.cancelled refunded = true
status_fits pending_payment pending = true
status_fits confirmed PaymentStatus.paid = true
status_fits active PaymentStatus.paid = true
status_fits RentalStatus.completed PaymentStatus.paid = true
status_fits RentalStatus.completed refunded = true
status_fits _ _ = false

abbrev pub unpaid_fits : RentalStatus → Bool
unpaid_fits requested = true
unpaid_fits approved = true
unpaid_fits rejected = true
unpaid_fits RentalStatus.cancelled = true
unpaid_fits _ = false

abbrev pub fits : RentalStatus → Option Payment → Bool
fits s none = unpaid_fits s
fits s (some p) = status_fits s p.status

pub record IsCoherent (db : Database) : Type 0 where
  -- each rental's status fits its payment
  pub fit :
      (id : ℕ) (r : RentalRow)
      → find_rental id db ≡ some r
      → fits r.status (payment_of id db) ≡ true
  -- `rentals_pkey`, `payments_pkey` and `payments_rental_id_key`
  pub rental_ids : DistinctBy (λ r. r.id) db.rentals
  pub payment_ids : DistinctBy (λ p. p.id) db.payments
  pub owners : DistinctBy (λ p. p.rental_id) db.payments
  -- the sequences are ahead of the rows
  pub payments_below : All (λ p. p.id < db.next_payment) db.payments
  pub owners_below : All (λ p. p.rental_id < db.next_rental) db.payments
  pub rentals_below : All (λ r. r.id < db.next_rental) db.rentals
