-- ===== src/Tests/Coherent.antt =====
-- The theorems on the invariant at concrete tables and requests.
use rentcar_backend.Base.{ℕ, ◌+◌, [], ◌∷◌}
use rentcar_backend.Models.{customer, card}
use rentcar_backend.Store.{Database, World}
use rentcar_backend.Store.Keeps.{Holds}
use rentcar_backend.Rentals.Service.Handlers as RentalService
use rentcar_backend.Rentals.Service.Handlers.{RentalInput}
use rentcar_backend.Payments.Repository as PaymentRepository
use rentcar_backend.Payments.Service.{create, confirm, fail_payment, refund}
use rentcar_backend.Coherence.{IsCoherent}
use rentcar_backend.Coherence.Payments.{confirm-IsCoherent}
use rentcar_backend.Coherence.Interference.{
  booking-IsCoherent, asked-IsCoherent, confirmed-IsCoherent, failed-IsCoherent,
  refunded-IsCoherent,
}
use rentcar_backend.Tests.Data.{may_first, request_at}
use rentcar_backend.Tests.Run.{
  accepted, asked, paid, accepted-IsCoherent, asked-IsCoherent_run, paid-IsCoherent,
}

-- A request during which another one confirms a payment.
abbrev beside_confirm : ℕ → Database → World
beside_confirm day db = record (request_at day db) {
  others = (λ d. (PaymentRepository.confirm 1 (request_at day d)).1.db) ∷ [];
}

beside_confirm-Holds :
    (day : ℕ) (db : Database) → IsCoherent db → Holds IsCoherent (beside_confirm day db)
beside_confirm-Holds day db h = (h, ((λ d k. confirm-IsCoherent 1 (request_at day d) k), tt))

abbrev june : RentalInput
june = record { car_id = 1; start_date = "2024-06-10"; end_date = "2024-06-12" }

booking-IsCoherent_example :
    IsCoherent (RentalService.create 1 june (beside_confirm (may_first + 1) asked)).1.db
booking-IsCoherent_example =
    booking-IsCoherent 1 june (beside_confirm (may_first + 1) asked)
      (beside_confirm-Holds (may_first + 1) asked asked-IsCoherent_run)

asked-IsCoherent_example :
    IsCoherent
      (create 1 customer
        (record { rental_id = 1; method = card })
        (request_at (may_first + 1) accepted)).1.db
asked-IsCoherent_example =
    asked-IsCoherent 1 customer (record { rental_id = 1; method = card })
      (request_at (may_first + 1) accepted) (accepted-IsCoherent, tt)

confirmed-IsCoherent_example : IsCoherent (confirm 1 (request_at (may_first + 2) asked)).1.db
confirmed-IsCoherent_example =
    confirmed-IsCoherent 1 (request_at (may_first + 2) asked) (asked-IsCoherent_run, tt)

failed-IsCoherent_example : IsCoherent (fail_payment 1 (request_at (may_first + 2) asked)).1.db
failed-IsCoherent_example =
    failed-IsCoherent 1 (request_at (may_first + 2) asked) (asked-IsCoherent_run, tt)

refunded-IsCoherent_example : IsCoherent (refund 1 (request_at (may_first + 3) paid)).1.db
refunded-IsCoherent_example =
    refunded-IsCoherent 1 (request_at (may_first + 3) paid) (paid-IsCoherent, tt)
