-- ===== src/Web/Serving/Others.antt =====
-- The other calls of the repositories, and the tables of rentals and payments.
use rentcar_backend.Base.{ℕ, ◌≡◌, ap, ◌∙◌, List, String, arith}
use rentcar_backend.Models.{
  Car, CarMaintenance, Invoice, Notification, AuditLog, User, AuthToken, UserRole, RentalRow,
  Payment,
}
use rentcar_backend.Store.{Database, World, Action, exec, attempt}
use rentcar_backend.Store.Calm.{Keeps}
use rentcar_backend.Coherence.{IsCoherent}
use rentcar_backend.Cars.Repository as Cars
use rentcar_backend.Maintenance.Repository as Maintenance
use rentcar_backend.Invoices.Repository as Invoices
use rentcar_backend.Notices.Notifications as Notifications
use rentcar_backend.Notices.Audits as Audits
use rentcar_backend.Payments.Repository as Payments
use rentcar_backend.Notices.Audits.{Json}
use rentcar_backend.Users.Repository as Users
use rentcar_backend.Users.Tokens as Tokens

-- What the invariant speaks of.
abbrev pub bookings : Database → List RentalRow × List Payment × ℕ × ℕ
bookings db = (db.rentals, db.payments, db.next_rental, db.next_payment)

same_bookings : (db db' : Database) → bookings db' ≡ bookings db → IsCoherent db → IsCoherent db'
same_bookings db db' e c =
    let rentals : db'.rentals ≡ db.rentals = ap (λ b. b.0) e in
    let payments : db'.payments ≡ db.payments = ap (λ b. b.1) e in
    let rental_ids : db'.next_rental ≡ db.next_rental = ap (λ b. b.2) e in
    let payment_ids : db'.next_payment ≡ db.next_payment = ap (λ b. b.3) e in
    record {
      fit = λ id r found. rw payments (c.fit id r (rw (← rentals) found));
      rental_ids = rw rentals c.rental_ids;
      payment_ids = rw payments c.payment_ids;
      owners = rw payments c.owners;
      payments_below = rw (payments, payment_ids) c.payments_below;
      owners_below = rw (payments, rental_ids) c.owners_below;
      rentals_below = rw (rentals, rental_ids) c.rentals_below;
    }

-- The call leaves rentals and payments as they were, and brings in no other request.
pub record Untouched {A : Type 0} (m : Action A) : Type 0 where
  pub tables : (w : World) → bookings (m w).1.db ≡ bookings w.db
  pub others : (w : World) → (m w).1.others ≡ w.others

pub keeps_Untouched : {A : Type 0} (m : Action A) → Untouched m → Keeps IsCoherent m
keeps_Untouched m u = record {
  keep = λ w h. (u.others w ∙ h.0, same_bookings w.db (m w).1.db (u.tables w) h.1);
}

pub create_car-keeps : (c : Car) → Keeps IsCoherent (Cars.create c)
unfolding Cars.create exec attempt
create_car-keeps c =
    keeps_Untouched (Cars.create c)
      (record { tables = λ w. ground arith; others = λ w. ground arith })

pub update_car-keeps : (c : Car) → Keeps IsCoherent (Cars.update_by_id c)
unfolding Cars.update_by_id exec attempt
update_car-keeps c =
    keeps_Untouched (Cars.update_by_id c)
      (record { tables = λ w. ground arith; others = λ w. ground arith })

pub delete_car-keeps : (id : ℕ) → Keeps IsCoherent (Cars.delete id)
unfolding Cars.delete exec attempt
delete_car-keeps id =
    keeps_Untouched (Cars.delete id)
      (record { tables = λ w. ground arith; others = λ w. ground arith })

pub create_maintenance-keeps : (m : CarMaintenance) → Keeps IsCoherent (Maintenance.create m)
unfolding Maintenance.create exec attempt
create_maintenance-keeps m =
    keeps_Untouched (Maintenance.create m)
      (record { tables = λ w. ground arith; others = λ w. ground arith })

pub update_maintenance-keeps : (m : CarMaintenance) → Keeps IsCoherent (Maintenance.update_by_id m)
unfolding Maintenance.update_by_id exec attempt
update_maintenance-keeps m =
    keeps_Untouched (Maintenance.update_by_id m)
      (record { tables = λ w. ground arith; others = λ w. ground arith })

pub delete_maintenance-keeps : (id : ℕ) → Keeps IsCoherent (Maintenance.delete id)
unfolding Maintenance.delete exec attempt
delete_maintenance-keeps id =
    keeps_Untouched (Maintenance.delete id)
      (record { tables = λ w. ground arith; others = λ w. ground arith })

pub find_maintenance-keeps : (id : ℕ) → Keeps IsCoherent (Maintenance.find_by_id id)
unfolding Maintenance.find_by_id exec attempt
find_maintenance-keeps id =
    keeps_Untouched (Maintenance.find_by_id id)
      (record { tables = λ w. ground arith; others = λ w. ground arith })

pub create_invoice-keeps : (i : Invoice) → Keeps IsCoherent (Invoices.create i)
unfolding Invoices.create exec attempt
create_invoice-keeps i =
    keeps_Untouched (Invoices.create i)
      (record { tables = λ w. ground arith; others = λ w. ground arith })

pub find_invoice-keeps : (id : ℕ) → Keeps IsCoherent (Invoices.find_by_rental_id id)
unfolding Invoices.find_by_rental_id exec attempt
find_invoice-keeps id =
    keeps_Untouched (Invoices.find_by_rental_id id)
      (record { tables = λ w. ground arith; others = λ w. ground arith })

pub pay_invoices-keeps : (id : ℕ) → Keeps IsCoherent (Invoices.mark_paid id)
unfolding Invoices.mark_paid exec attempt
pay_invoices-keeps id =
    keeps_Untouched (Invoices.mark_paid id)
      (record { tables = λ w. ground arith; others = λ w. ground arith })

pub find_payment-keeps : (id : ℕ) → Keeps IsCoherent (Payments.find_by_id id)
unfolding Payments.find_by_id exec attempt
find_payment-keeps id =
    keeps_Untouched (Payments.find_by_id id)
      (record { tables = λ w. ground arith; others = λ w. ground arith })

pub create_notification-keeps : (n : Notification) → Keeps IsCoherent (Notifications.create n)
unfolding Notifications.create exec attempt Notifications.insert_notification
create_notification-keeps n =
    keeps_Untouched (Notifications.create n)
      (record { tables = λ w. ground arith; others = λ w. ground arith })

pub read_notification-keeps : (id user : ℕ) → Keeps IsCoherent (Notifications.mark_read id user)
unfolding Notifications.mark_read exec attempt Notifications.mark_rows
read_notification-keeps id user =
    keeps_Untouched (Notifications.mark_read id user)
      (record { tables = λ w. ground arith; others = λ w. ground arith })

pub create_log-keeps : (json : Json) (l : AuditLog) → Keeps IsCoherent (Audits.create json l)
unfolding Audits.create exec attempt Audits.insert_audit_log
create_log-keeps json l =
    keeps_Untouched (Audits.create json l)
      (record { tables = λ w. ground arith; others = λ w. ground arith })

pub create_user-keeps : (u : User) → Keeps IsCoherent (Users.create u)
unfolding Users.create exec attempt Users.insert_user
create_user-keeps u =
    keeps_Untouched (Users.create u)
      (record { tables = λ w. ground arith; others = λ w. ground arith })

pub find_email-keeps : (email : String) → Keeps IsCoherent (Users.find_by_email email)
unfolding Users.find_by_email exec attempt
find_email-keeps email =
    keeps_Untouched (Users.find_by_email email)
      (record { tables = λ w. ground arith; others = λ w. ground arith })

pub find_user-keeps : (id : ℕ) → Keeps IsCoherent (Users.find_by_id id)
unfolding Users.find_by_id exec attempt
find_user-keeps id =
    keeps_Untouched (Users.find_by_id id)
      (record { tables = λ w. ground arith; others = λ w. ground arith })

pub save_verification-keeps :
    (id : ℕ) (hash : String) (t : ℕ) → Keeps IsCoherent (Users.save_email_verification id hash t)
unfolding Users.save_email_verification exec attempt Users.update_users
save_verification-keeps id hash t =
    keeps_Untouched (Users.save_email_verification id hash t)
      (record { tables = λ w. ground arith; others = λ w. ground arith })

pub attempts-keeps : (id : ℕ) → Keeps IsCoherent (Users.increment_attempts id)
unfolding Users.increment_attempts exec attempt Users.update_users
attempts-keeps id =
    keeps_Untouched (Users.increment_attempts id)
      (record { tables = λ w. ground arith; others = λ w. ground arith })

pub verify-keeps : (id : ℕ) → Keeps IsCoherent (Users.mark_email_verified id)
unfolding Users.mark_email_verified exec attempt Users.update_users
verify-keeps id =
    keeps_Untouched (Users.mark_email_verified id)
      (record { tables = λ w. ground arith; others = λ w. ground arith })

pub update_profile-keeps : (u : User) → Keeps IsCoherent (Users.update_profile u)
unfolding Users.update_profile exec attempt Users.update_profile_row
update_profile-keeps u =
    keeps_Untouched (Users.update_profile u)
      (record { tables = λ w. ground arith; others = λ w. ground arith })

pub update_role-keeps : (id : ℕ) (r : UserRole) → Keeps IsCoherent (Users.update_role id r)
unfolding Users.update_role exec attempt Users.update_role_row Users.update_users
update_role-keeps id r =
    keeps_Untouched (Users.update_role id r)
      (record { tables = λ w. ground arith; others = λ w. ground arith })

pub create_token-keeps : (t : AuthToken) → Keeps IsCoherent (Tokens.create t)
unfolding Tokens.create exec attempt Tokens.insert_token
create_token-keeps t =
    keeps_Untouched (Tokens.create t)
      (record { tables = λ w. ground arith; others = λ w. ground arith })

pub find_token-keeps : (hash : String) → Keeps IsCoherent (Tokens.find_active_by_hash hash)
unfolding Tokens.find_active_by_hash exec attempt
find_token-keeps hash =
    keeps_Untouched (Tokens.find_active_by_hash hash)
      (record { tables = λ w. ground arith; others = λ w. ground arith })

pub revoke_token-keeps : (hash : String) → Keeps IsCoherent (Tokens.revoke_by_hash hash)
unfolding Tokens.revoke_by_hash exec attempt Tokens.revoke_tokens
revoke_token-keeps hash =
    keeps_Untouched (Tokens.revoke_by_hash hash)
      (record { tables = λ w. ground arith; others = λ w. ground arith })

pub revoke_tokens-keeps : (user : ℕ) → Keeps IsCoherent (Tokens.revoke_all_by_user_id user)
unfolding Tokens.revoke_all_by_user_id exec attempt Tokens.revoke_tokens
revoke_tokens-keeps user =
    keeps_Untouched (Tokens.revoke_all_by_user_id user)
      (record { tables = λ w. ground arith; others = λ w. ground arith })
