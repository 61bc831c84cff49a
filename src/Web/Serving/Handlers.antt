-- ===== src/Web/Serving/Handlers.antt =====
-- The handlers of rentals, payments and invoices, and the invariant of their tables.
use rentcar_backend.Base.{ℕ, String, Bool, true, false, [], Option, none, some, Outcome, ok, err}
use rentcar_backend.AppError.{Error}
use rentcar_backend.Models.{
  RentalStatus, Rental, Invoice, UserRole, NotificationType, user_role_eq, rental_status_eq,
}
use rentcar_backend.Text.{Unicode}
use rentcar_backend.Store.{Database, Action}
use rentcar_backend.Store.Calm.{
  Keeps, keeps_pure, keeps_fail, keeps_bind, keeps_require, keeps_outcome, keeps_gets, keeps_call,
  keeps_catch,
}
use rentcar_backend.Rentals.Service.Handlers as RentalService
use rentcar_backend.Rentals.Service.Handlers.{RentalInput, with_status}
use rentcar_backend.Payments.Service as PaymentService
use rentcar_backend.Payments.Service.{PaymentInput}
use rentcar_backend.Invoices.Service as InvoiceService
use rentcar_backend.Notices.Audits.{Json, AuditInput, create_log}
use rentcar_backend.Notices.Notifications.{NotificationInput, create_notification}
use rentcar_backend.Coherence.{IsCoherent}
use rentcar_backend.Web.Rentals as Rentals
use rentcar_backend.Web.Rentals.{
  RentalHandler, notify_rental_status, notified, rental_status_notification, told,
}
use rentcar_backend.Web.Payments as Payments
use rentcar_backend.Web.Payments.{PaymentHandler}
use rentcar_backend.Web.Replies.{Context, given}
use rentcar_backend.Web.Trail.{audit}
use rentcar_backend.Web.Validator.{BindError, bound}
use rentcar_backend.Web.Serving.Quiet.{keeps_if}
use rentcar_backend.Web.Serving.Services.{
  find_rental-keeps, booking-keeps, update_status-keeps, approve-keeps, reject-keeps, cancel-keeps,
  asking-keeps, confirming-keeps, failing-keeps, refunding-keeps,
}
use rentcar_backend.Web.Serving.Others.{
  create_log-keeps, create_notification-keeps, find_payment-keeps, find_invoice-keeps,
  create_invoice-keeps, pay_invoices-keeps,
}

module _ {P : Database → Type 0} where
  pub keeps_given : (b : Bool) {m : Action (Unit {0})} → Keeps P m → Keeps P (given b m)
  keeps_given true k = k
  keeps_given false k = keeps_pure tt

  pub keeps_bound : {A : Type 0} (u : Unicode) (r : Outcome BindError A) → Keeps P (bound u r)
  keeps_bound u (ok a) = keeps_pure a
  keeps_bound u (err e) = keeps_fail _

pub ruleset chain = (
  keeps_pure, keeps_fail, keeps_bind, keeps_require, keeps_outcome, keeps_gets, keeps_call,
  keeps_catch, keeps_if, keeps_given, keeps_bound,
)

log-keeps : (json : Json) (i : AuditInput) → Keeps IsCoherent (create_log json i)
unfolding create_log
log-keeps json i = search (chain, create_log-keeps) depth 30

pub audit-keeps :
    (json : Json) (has : Bool) (c : Context) (action entity : String) (id : ℕ) (metadata : String)
    → Keeps IsCoherent (audit json has c action entity id metadata)
unfolding audit
audit-keeps json has c action entity id metadata = search (chain, log-keeps) depth 30

notice-keeps : (n : NotificationInput) → Keeps IsCoherent (create_notification n)
unfolding create_notification
notice-keeps n = search (chain, create_notification-keeps) depth 30

notified-keeps :
    (h : RentalHandler) (r : Rental) (o : Option (String × String × NotificationType))
    → Keeps IsCoherent (notified h r o)
notified-keeps h r none = keeps_pure []
notified-keeps h r (some n) = search (chain, notice-keeps) depth 30

notify-keeps : (h : RentalHandler) (r : Rental) → Keeps IsCoherent (notify_rental_status h r)
unfolding notify_rental_status
notify-keeps h r = notified-keeps h r (rental_status_notification r.row.status)

read-keeps :
    (user : ℕ) (role : UserRole) (id : ℕ) → Keeps IsCoherent (RentalService.find_by_id user role id)
unfolding RentalService.find_by_id
read-keeps user role id = search (chain, find_rental-keeps) depth 30

ruleset rentals = (
  chain, audit-keeps, notice-keeps, notify-keeps, read-keeps, booking-keeps, update_status-keeps,
  approve-keeps, reject-keeps, cancel-keeps,
)

module _ (json : Json) (u : Unicode) (h : RentalHandler) (c : Context) where
  pub create_rental-keeps :
      (body : Outcome BindError RentalInput) → Keeps IsCoherent (Rentals.create json u h c body)
  unfolding Rentals.create
  create_rental-keeps body = search rentals depth 40

  pub set_rental-keeps :
      (body : Outcome BindError RentalStatus)
      → Keeps IsCoherent (Rentals.update_status json u h c body)
  unfolding Rentals.update_status
  set_rental-keeps body = search rentals depth 40

  pub approve_rental-keeps : Keeps IsCoherent (Rentals.approve json u h c)
  unfolding Rentals.approve
  approve_rental-keeps = search rentals depth 40

  pub reject_rental-keeps : Keeps IsCoherent (Rentals.reject json u h c)
  unfolding Rentals.reject
  reject_rental-keeps = search rentals depth 40

  told-keeps :
      (before : Rental) (r : Outcome Error Rental) → Keeps IsCoherent (told json u h c before r)
  told-keeps before (ok rental) = search rentals depth 40
  told-keeps before (err e) = keeps_pure _

  pub cancel_rental-keeps : Keeps IsCoherent (Rentals.cancel json u h c)
  unfolding Rentals.cancel
  cancel_rental-keeps = search (rentals, told-keeps) depth 40

paid-keeps : (id : ℕ) → Keeps IsCoherent (InvoiceService.mark_paid id)
unfolding InvoiceService.mark_paid
paid-keeps id = keeps_call _ (pay_invoices-keeps id)

payment-keeps : (id : ℕ) → Keeps IsCoherent (PaymentService.find_by_id id)
unfolding PaymentService.find_by_id
payment-keeps id = keeps_call _ (find_payment-keeps id)

ruleset payments = (
  chain, audit-keeps, paid-keeps, payment-keeps, asking-keeps, confirming-keeps, failing-keeps,
  refunding-keeps,
)

module _ (json : Json) (u : Unicode) (h : PaymentHandler) (c : Context) where
  pub create_payment-keeps :
      (body : Outcome BindError PaymentInput) → Keeps IsCoherent (Payments.create json u h c body)
  unfolding Payments.create
  create_payment-keeps body = search payments depth 40

  pub confirm_payment-keeps : Keeps IsCoherent (Payments.confirm json u h c)
  unfolding Payments.confirm
  confirm_payment-keeps = search payments depth 40

  pub fail_payment-keeps : Keeps IsCoherent (Payments.fail_payment json u h c)
  unfolding Payments.fail_payment
  fail_payment-keeps = search payments depth 40

  pub refund_payment-keeps : Keeps IsCoherent (Payments.refund json u h c)
  unfolding Payments.refund
  refund_payment-keeps = search payments depth 40

or_create-keeps :
    (r : Rental) (o : Outcome Error Invoice) → Keeps IsCoherent (InvoiceService.or_create r o)
or_create-keeps r (ok i) = keeps_pure i
or_create-keeps r (err e) = search (chain, create_invoice-keeps) depth 40

pub invoice-keeps : (c : Context) → Keeps IsCoherent (Payments.get_by_rental c)
unfolding Payments.get_by_rental InvoiceService.get_or_create
invoice-keeps c = search (chain, find_rental-keeps, find_invoice-keeps, or_create-keeps) depth 40
