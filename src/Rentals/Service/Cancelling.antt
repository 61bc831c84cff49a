-- ===== src/Rentals/Service/Cancelling.antt =====
-- What a cancellation by internal/service/rental_service.go requires, and what it leaves.
use rentcar_backend.Base.{
  ℕ, ◌/◌, ◌<◌, ◌≢◌, ◌⊎◌, Option, find, ◌&&◌, Bool-cases, ◌==◌, nat_eq, ◌≡◌, refl, ap, sym, ◌∙◌,
  true, none, some, ok, [], update, arith, Option-cases, inl, inr,
}
use rentcar_backend.Models.{
  RentalStatus, confirmed, RentalRow, Rental, Payment, PaymentStatus, pending, failed, refunded,
  UserRole, admin, super_admin, issued, void, invoice_status_eq, rental_status_eq,
  payment_status_eq, user_role_eq,
}
use rentcar_backend.Store.{
  World, Action, ◌>>=◌, ◌>>◌, require, gets, call, yield, today, exec, attempt, set_rental_status,
  set_invoice_status,
}
use rentcar_backend.Store.Inversion.{bind-ok}
use rentcar_backend.Store.Constraints.{find_rental}
use rentcar_backend.Rentals.Repository
use rentcar_backend.Rentals.Repository.{is_open_invoice}
use rentcar_backend.Rentals.Repository.Effects.{cancel_effect, find_by_id_effect, find_by_id_same}
use rentcar_backend.Rentals.Service.Status.{no_open_payment, open_payment}
use rentcar_backend.Rentals.Service.Handlers.{may_access, cancel, cancel_guard}

-- What a cancellation asks for of a rental and its payment, of a caller on a day.
pub record IsCancellable (day user : ℕ) (role : UserRole) (r : RentalRow) (payment : Option Payment)
    : Type 0 where
  pub access : (r.user_id ≡ user) ⊎ ((role ≡ admin) ⊎ (role ≡ super_admin))
  pub live : r.status ≢ RentalStatus.cancelled
  pub unfinished : r.status ≢ RentalStatus.completed
  pub no_payment : (p : Payment) → payment ≡ some p → (p.status ≡ failed) ⊎ (p.status ≡ refunded)
  pub in_time : r.status ≡ confirmed → day < r.start_date

accessible :
    (user : ℕ) (role : UserRole) (r : RentalRow)
    → may_access user role r ≡ true
    → (r.user_id ≡ user) ⊎ ((role ≡ admin) ⊎ (role ≡ super_admin))
accessible user role r h = elim (Bool-cases (r.user_id == user)) [
  | inl own ↦ inl ((nat_eq.equal_iff r.user_id user).0 own)
  | inr other ↦ elim (Bool-cases (role == admin)) [
    | inl is ↦ inr (inl ((user_role_eq.equal_iff role admin).0 is))
    | inr isnt ↦
        inr (inr ((user_role_eq.equal_iff role super_admin).0 (ground (arith, other, isnt))))
  ]
]

closed_payment :
    (s : PaymentStatus) → open_payment s "cancelling" ≡ none → (s ≡ failed) ⊎ (s ≡ refunded)
closed_payment failed h = inl refl
closed_payment refunded h = inr refl
closed_payment pending h = absurd (ground arith)
closed_payment PaymentStatus.paid h = absurd (ground arith)
closed_payment (PaymentStatus.other t) h = absurd (ground arith)

guard_passed :
    (day user : ℕ) (role : UserRole) (rental : Rental)
    → cancel_guard day user role rental ≡ none
    → IsCancellable day user role rental.row rental.payment
unfolding cancel_guard
guard_passed day user role rental h = record {
  access = accessible user role rental.row (ground arith);
  live = λ e. absurd (ground (arith, e));
  unfinished = λ e. absurd (ground (arith, e));
  no_payment = λ p e.
      let none_open : no_open_payment rental.payment "cancelling" ≡ none = ground arith in
      closed_payment p.status (ap (λ o. no_open_payment o "cancelling") (sym e) ∙ none_open);
  in_time = λ e. ground (arith, e);
}

call_alone :
    (id : ℕ) (w : World)
    → w.others ≡ []
    → call (Repository.find_by_id id) w ≡ Repository.find_by_id id w
unfolding call
call_alone id w alone = let here : yield w ≡ w = rw alone refl in ap (Repository.find_by_id id) here

find_others : (id : ℕ) (w : World) → (Repository.find_by_id id w).1.others ≡ w.others
unfolding Repository.find_by_id exec attempt
find_others id w = ground arith

find_now : (id : ℕ) (w : World) → (Repository.find_by_id id w).1.now ≡ w.now
unfolding Repository.find_by_id exec attempt
find_now id w = ground arith

-- The last step, from where the guards have passed.
cancelled_alone :
    (user : ℕ) (role : UserRole) (id : ℕ) (rental : Rental) (v : World)
    → v.others ≡ []
    → cancel_guard (today v) user role rental ≡ none
    → ((require (cancel_guard (today v) user role rental) >> call (Repository.cancel id)) v).0
      ≡ ok tt
    → ((require (cancel_guard (today v) user role rental) >> call (Repository.cancel id)) v).1.db
      ≡ record (v.db) {
        rentals =
            update (λ r. r.id == id) (set_rental_status RentalStatus.cancelled v.now) v.db.rentals;
        invoices = update (is_open_invoice id) (set_invoice_status void v.now) v.db.invoices;
      }
unfolding call
cancelled_alone user role id rental v alone passed h = ground (arith, cancel_effect id v)

same_day : (v w : World) → v.now ≡ w.now → today v ≡ w.now / 86_400_000_000_000
unfolding today
same_day v w h = rw h refl

passed_guard :
    (day user : ℕ) (role : UserRole) (id : ℕ) (rental : Rental) (v : World)
    → ((require (cancel_guard day user role rental) >> call (Repository.cancel id)) v).0 ≡ ok tt
    → cancel_guard day user role rental ≡ none
passed_guard day user role id rental v h = elim (Option-cases (cancel_guard day user role rental)) [
  | inl passed ↦ passed
  | inr (e, refused) ↦ absurd (ground arith)
]

-- A cancellation that succeeds, with no other request in between, was asked for by the customer or an
-- administrator, of a rental that is neither cancelled nor completed, whose payment in the tables, if it has one,
-- is failed or refunded, and which, where it is confirmed, begins after today; and all that it changes is the
-- status of the rental, and of its issued invoices, which are void.
pub cancel_lem :
    (user : ℕ) (role : UserRole) (id : ℕ) (w : World)
    → w.others ≡ []
    → (cancel user role id w).0 ≡ ok tt
    → (r : RentalRow) × (find_rental id w.db ≡ some r)
      × IsCancellable
          (w.now / 86_400_000_000_000)
          user
          role
          r
          (find (λ p. p.rental_id == r.id) w.db.payments)
      × ((cancel user role id w).1.db ≡ record (w.db) {
        rentals =
            update
              (λ x. x.id == id)
              (λ x. record x { status = RentalStatus.cancelled; updated_at = w.now })
              w.db.rentals;
        invoices =
            update
              (λ i. i.rental_id == id && i.status == issued)
              (λ i. record i { status = void; updated_at = w.now })
              w.db.invoices;
      })
unfolding cancel
cancel_lem user role id w alone h =
    let k : Rental → Action (Unit {0}) = λ rental. gets today >>= λ day.
    require (cancel_guard day user role rental) >> call (Repository.cancel id) in
    let (rental, found, rest, final) = bind-ok (call (Repository.find_by_id id)) k w tt h in
    let v : World = (call (Repository.find_by_id id) w).1 in
    let same : call (Repository.find_by_id id) w ≡ Repository.find_by_id id w =
      call_alone id w alone in
    let time : v.now ≡ w.now = ap (λ r. r.1.now) same ∙ find_now id w in
    let kept : v.db ≡ w.db = ap (λ r. r.1.db) same ∙ find_by_id_same id w in
    let others : v.others ≡ [] = ap (λ r. r.1.others) same ∙ find_others id w ∙ alone in
    let (row, payment) = find_by_id_effect id w rental (ap (λ r. r.0) (sym same) ∙ found.result) in
    let passed : cancel_guard (today v) user role rental ≡ none =
      passed_guard (today v) user role id rental v rest in
    (
      rental.row,
      row,
      rw (← payment, ← same_day v w time) (guard_passed (today v) user role rental passed),
      ap (λ u. u.db) final
          ∙ cancelled_alone user role id rental v others passed rest
          ∙ rw (kept, time) refl,
    )
