-- ===== src/Coherence/Services.antt =====
-- The methods of internal/service/rental_service.go that move a rental, and the invariant. Each reads
-- the rental, checks it, and writes in a transaction of its own.
use rentcar_backend.Base.{
  ℕ, ◌==◌, nat_eq, ◌≡◌, refl, ap, true, some, ok, arith, [], sym, ◌∙◌, find_passes,
}
use rentcar_backend.Models.{
  RentalStatus, approved, rejected, UserRole, Rental, RentalRow, rental_status_eq,
}
use rentcar_backend.Store.{
  World, Action, pure, ◌>>=◌, ◌>>◌, require, gets, call, today, exec, attempt,
}
use rentcar_backend.Store.Keeps.{keep_bind, keep_require}
use rentcar_backend.Store.Constraints.{find_rental}
use rentcar_backend.Payments.Repository.{payment_of}
use rentcar_backend.Rentals.Repository
use rentcar_backend.Rentals.Repository.Effects.{find_by_id_effect, find_by_id_same}
use rentcar_backend.Rentals.Service.Status.{validate_status_change, no_open_payment}
use rentcar_backend.Rentals.Service.Handlers.{
  update_status, approve, reject, cancel, cancel_guard, with_status, not_asked, not_open,
}
use rentcar_backend.Coherence.{IsCoherent, fits}
use rentcar_backend.Coherence.Guards.{validated_fits, closed_fits, cancelled_fits}
use rentcar_backend.Coherence.Rentals.{update_status-IsCoherent, cancel-IsCoherent}

-- What reading a rental alone has found, and where it leaves the world.
record Read (id : ℕ) (w : World) (rental : Rental) (v : World) : Type 0 where
  same : v.db ≡ w.db
  alone : v.others ≡ []
  row : find_rental id v.db ≡ some rental.row
  payment : payment_of id v.db ≡ rental.payment

find_by_id_others : (id : ℕ) (w : World) → (Repository.find_by_id id w).1.others ≡ w.others
unfolding Repository.find_by_id exec attempt
find_by_id_others id w = ground arith

-- Where no other request commits, a call starts from the world as it is.
call_alone : {A : Type 0} (m : Action A) (w : World) → w.others ≡ [] → call m w ≡ m w
unfolding call
call_alone m w alone = ap m (rw alone refl)

Read-alone :
    (id : ℕ) (w : World) (rental : Rental) (v : World)
    → w.others ≡ []
    → call (Repository.find_by_id id) w ≡ (ok rental, v)
    → Read id w rental v
Read-alone id w rental v alone e =
    let e' : Repository.find_by_id id w ≡ (ok rental, v) =
      rw (← call_alone (Repository.find_by_id id) w alone) e in
    let kept : v.db ≡ w.db = ap (λ r. r.1.db) (sym e') ∙ find_by_id_same id w in
    let (found, paid) = find_by_id_effect id w rental (ap (λ r. r.0) e') in
    let key : rental.row.id ≡ id =
      ground (arith, find_passes (λ (x : RentalRow). x.id == id) w.db.rentals found) in
    record {
      same = kept;
      alone = ap (λ r. r.1.others) (sym e') ∙ find_by_id_others id w ∙ alone;
      row = rw kept found;
      payment = rw kept (sym (paid ∙ ap (λ i. payment_of i w.db) key));
    }

-- A repository's move of the status, called where the rental's new status fits its payment.
pub record Moves (id : ℕ) (s : RentalStatus) (m : Action (Unit {0})) : Type 0 where
  pub keeps :
      (w : World) → IsCoherent w.db → fits s (payment_of id w.db) ≡ true → IsCoherent (m w).1.db

-- The rest of a handler, from the read on.
module _ (id : ℕ) (w : World) (alone : w.others ≡ []) (h : IsCoherent w.db) where
  moved :
      (s : RentalStatus) (m : Action (Unit {0})) (rental : Rental) (v : World)
      → Moves id s m
      → Read id w rental v
      → fits s rental.payment ≡ true
      → IsCoherent (call m v).1.db
  moved s m rental v moves read fit =
      rw (call_alone m v read.alone) (moves.keeps v (rw read.same h) (rw read.payment fit))

  after-Read :
      {A : Type 0} (k : Rental → Action A)
      → ((rental : Rental) (v : World)
          → Read id w rental v
          → IsCoherent v.db
          → fits rental.row.status rental.payment ≡ true
          → IsCoherent (k rental v).1.db)
      → IsCoherent ((call (Repository.find_by_id id) >>= k) w).1.db
  after-Read k next =
      keep_bind (λ u. IsCoherent u.db) (call (Repository.find_by_id id)) k w
        (rw (call_alone (Repository.find_by_id id) w alone, find_by_id_same id w) h)
        (λ rental v e c.
          let read = Read-alone id w rental v alone e in
          next rental v read c (rw (← read.payment) (c.fit id rental.row read.row)))

update_status-Moves : (id : ℕ) (s : RentalStatus) → Moves id s (Repository.update_status id s)
update_status-Moves id s = record { keeps = update_status-IsCoherent id s }

cancel-Moves : (id : ℕ) → Moves id RentalStatus.cancelled (Repository.cancel id)
cancel-Moves id = record { keeps = cancel-IsCoherent id }

-- The rest of a handler that answers with a value of its own.
abbrev answers : {A : Type 0} → Action (Unit {0}) → A → Action A
answers m a = call m >> pure a

-- `UpdateStatus` keeps the invariant, whatever status it is given and whether it succeeds or not, where
-- it holds at the start and no other request commits in between.
pub update_status-IsCoherent_alone :
    (id : ℕ) (next : RentalStatus) (w : World)
    → w.others ≡ []
    → IsCoherent w.db
    → IsCoherent (update_status id next w).1.db
unfolding update_status
update_status-IsCoherent_alone id next w alone h =
    let m : Action (Unit {0}) = Repository.update_status id next in
    after-Read id w alone h (λ rental. require (validate_status_change rental next) >> call m)
      λ rental v read c fit.
        keep_require (λ u. IsCoherent u.db) (validate_status_change rental next) (call m) v c
          λ passed.
            moved id w alone h next m rental v (update_status-Moves id next) read
              (validated_fits rental next fit passed)

-- `Approve` keeps the invariant, whether it succeeds or not, where it holds at the start and no other
-- request commits in between.
pub approve-IsCoherent :
    (id : ℕ) (w : World) → w.others ≡ [] → IsCoherent w.db → IsCoherent (approve id w).1.db
unfolding approve
approve-IsCoherent id w alone h =
    let m : Action (Unit {0}) = Repository.update_status id approved in
    after-Read id w alone h
      (λ rental.
        require (not_asked rental)
        >> (require (no_open_payment rental.payment "approving")
            >> answers m (with_status approved rental)))
      λ rental v read c fit.
        keep_require (λ u. IsCoherent u.db) (not_asked rental)
          (require (no_open_payment rental.payment "approving")
            >> answers m (with_status approved rental))
          v c
          λ asked.
            keep_require (λ u. IsCoherent u.db) (no_open_payment rental.payment "approving")
              (answers m (with_status approved rental)) v c
              λ closed.
                keep_bind (λ u. IsCoherent u.db) (call m) (λ _. pure (with_status approved rental))
                  v
                  (moved id w alone h approved m rental v (update_status-Moves id approved) read
                    (closed_fits approved rental.payment "approving" closed refl))
                  (λ a u e kept. kept)

-- `Reject` keeps the invariant, whether it succeeds or not, where it holds at the start and no other
-- request commits in between.
pub reject-IsCoherent :
    (id : ℕ) (w : World) → w.others ≡ [] → IsCoherent w.db → IsCoherent (reject id w).1.db
unfolding reject
reject-IsCoherent id w alone h =
    let m : Action (Unit {0}) = Repository.update_status id rejected in
    after-Read id w alone h
      (λ rental.
        require (not_open rental)
        >> (require (no_open_payment rental.payment "rejecting")
            >> answers m (with_status rejected rental)))
      λ rental v read c fit.
        keep_require (λ u. IsCoherent u.db) (not_open rental)
          (require (no_open_payment rental.payment "rejecting")
            >> answers m (with_status rejected rental))
          v c
          λ asked.
            keep_require (λ u. IsCoherent u.db) (no_open_payment rental.payment "rejecting")
              (answers m (with_status rejected rental)) v c
              λ closed.
                keep_bind (λ u. IsCoherent u.db) (call m) (λ _. pure (with_status rejected rental))
                  v
                  (moved id w alone h rejected m rental v (update_status-Moves id rejected) read
                    (closed_fits rejected rental.payment "rejecting" closed refl))
                  (λ a u e kept. kept)

-- `Cancel` keeps the invariant, whoever calls it and whether it succeeds or not, where it holds at the
-- start and no other request commits in between.
pub customer_cancel-IsCoherent :
    (user : ℕ) (role : UserRole) (id : ℕ) (w : World)
    → w.others ≡ []
    → IsCoherent w.db
    → IsCoherent (cancel user role id w).1.db
unfolding cancel
customer_cancel-IsCoherent user role id w alone h =
    let m : Action (Unit {0}) = Repository.cancel id in
    after-Read id w alone h
      (λ rental. gets today >>= λ day. require (cancel_guard day user role rental) >> call m)
      λ rental v read c fit.
        keep_require (λ u. IsCoherent u.db) (cancel_guard (today v) user role rental) (call m) v c
          λ passed.
            moved id w alone h RentalStatus.cancelled m rental v (cancel-Moves id) read
              (cancelled_fits (today v) user role rental passed)
