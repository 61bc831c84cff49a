-- ===== src/Payments/Finality.antt =====
-- Payments that have been settled: internal/repository/payment_repository.go.
use rentcar_backend.Base.{
  ℕ, ◌==◌, nat_eq, ◌≡◌, ◌≢◌, refl, false, none, ok, List, [], ◌∷◌, find, update, arith, Bool-cases,
  inl, inr,
}
use rentcar_backend.Models.{PaymentStatus, pending, failed, refunded, Payment, payment_status_eq}
use rentcar_backend.Store.{World}
use rentcar_backend.Payments.Repository.{
  has_status, set_paid, set_status, confirm, fail_payment, refund,
}
use rentcar_backend.Payments.Repository.Effects.{confirm_effect, fail_payment_effect, refund_effect}

-- No payment is left in a status that its update has left.
none_left :
    (id : ℕ) (s : PaymentStatus) (f : Payment → Payment) (ps : List Payment)
    → ((p : Payment) → ((f p).status == s) ≡ false)
    → find (has_status id s) (update (has_status id s) f ps) ≡ none
none_left id s f [] h = refl
none_left id s f (p ∷ ps) h = elim (Bool-cases (has_status id s p)) [
  | inl hit ↦ ground (arith, h p, none_left id s f ps h)
  | inr miss ↦ ground (arith, none_left id s f ps h)
]

none_pending :
    (id : ℕ) (v : World)
    → find (has_status id pending) v.db.payments ≡ none
    → ((confirm id v).0 ≢ ok tt) × ((fail_payment id v).0 ≢ ok tt)
none_pending id v gone = (
  (λ again. let (q, is, after, hit) = confirm_effect id v again in absurd (ground arith)),
  (λ again. let (q, is, after) = fail_payment_effect id v again in absurd (ground arith)),
)

-- A payment that has been confirmed is neither confirmed again nor failed: from the tables that a
-- successful confirmation leaves, both are refused, whatever else the world is.
pub confirmed_once :
    (id : ℕ) (w v : World)
    → (confirm id w).0 ≡ ok tt
    → v.db ≡ (confirm id w).1.db
    → ((confirm id v).0 ≢ ok tt) × ((fail_payment id v).0 ≢ ok tt)
confirmed_once id w v h same =
    let (p, found, after, hit) = confirm_effect id w h in
    let gone : find (has_status id pending) v.db.payments ≡ none =
      rw (same, after) (none_left id pending (set_paid w.now) w.db.payments (λ q. refl)) in
    none_pending id v gone

-- A payment that has failed is neither confirmed nor failed again: from the tables that a successful
-- `Fail` leaves, both are refused, whatever else the world is.
pub failed_once :
    (id : ℕ) (w v : World)
    → (fail_payment id w).0 ≡ ok tt
    → v.db ≡ (fail_payment id w).1.db
    → ((confirm id v).0 ≢ ok tt) × ((fail_payment id v).0 ≢ ok tt)
failed_once id w v h same =
    let (p, found, after) = fail_payment_effect id w h in
    let gone : find (has_status id pending) v.db.payments ≡ none =
      rw (same, after) (none_left id pending (set_status failed w.now) w.db.payments (λ q. refl)) in
    none_pending id v gone

-- A payment that has been refunded is not refunded again: from the tables that a successful refund
-- leaves, another is refused, whatever else the world is.
pub refunded_once :
    (id : ℕ) (w v : World)
    → (refund id w).0 ≡ ok tt
    → v.db ≡ (refund id w).1.db
    → (refund id v).0 ≢ ok tt
refunded_once id w v h same again =
    let (p, found, after) = refund_effect id w h in
    let gone : find (has_status id PaymentStatus.paid) v.db.payments ≡ none =
      rw (same, after)
        (none_left id PaymentStatus.paid (set_status refunded w.now) w.db.payments (λ q. refl)) in
    let (q, is, rest) = refund_effect id v again in absurd (ground arith)
