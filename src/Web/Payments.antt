-- ===== src/Web/Payments.antt =====
-- internal/handler/payment_handler.go, and internal/handler/invoice_handler.go.
use rentcar_backend.Base.{
  ℕ, Bool, true, false, String, List, [], ◌∷◌, Option, none, some, Outcome, ok, err,
}
use rentcar_backend.AppError.{Error}
use rentcar_backend.Models.{Payment, PaymentStatus, failed, refunded, Invoice}
use rentcar_backend.Text.{Unicode}
use rentcar_backend.Store.{Action, pure, ◌>>=◌, ◌>>◌, catch}
use rentcar_backend.Payments.Service as Service
use rentcar_backend.Payments.Service.{PaymentInput}
use rentcar_backend.Invoices.Service as InvoiceService
use rentcar_backend.Notices.Audits.{Json}
use rentcar_backend.Web.Json.{Fields}
use rentcar_backend.Web.Encoded.{payment_fields}
use rentcar_backend.Web.Params.{id_param, user_id}
use rentcar_backend.Web.Rentals.{flag}
use rentcar_backend.Web.Replies.{
  Context, Reply, ok_reply, created_reply, role_from_context, dropped, given,
}
use rentcar_backend.Web.Trail.{audit, audit_metadata}
use rentcar_backend.Web.Validator.{BindError, bound}

-- The services beside that of payments that `NewPaymentHandler` may be given.
pub data Extra : Type 0 where
  invoice_service audit_service : Extra

pub record PaymentHandler : Type 0 where
  pub invoices : Bool
  pub audit_log : Bool

abbrev with_extra : PaymentHandler → Extra → PaymentHandler
with_extra h invoice_service = record h { invoices = true }
with_extra h audit_service = record h { audit_log = true }

abbrev with_extras : PaymentHandler → List Extra → PaymentHandler
with_extras h [] = h
with_extras h (e ∷ es) = with_extras (with_extra h e) es

-- `NewPaymentHandler`
unfoldable pub new_payment_handler : List Extra → PaymentHandler
new_payment_handler extras = with_extras (record { invoices = false; audit_log = false }) extras

-- The payment that was read again, or what it was with the status that it has now.
abbrev pub read_again : Payment → PaymentStatus → Outcome Error Payment → Payment
read_again before s (ok payment) = payment
read_again before s (err e) = record before { status = s }

module _ (json : Json) (u : Unicode) (h : PaymentHandler) (c : Context) where
  abbrev pub log : String → ℕ → Option Payment → Payment → Action (Unit {0})
  log action id before after = audit json h.audit_log c action "payment" id (
      audit_metadata (elim before [ none ↦ none | some p ↦ some (payment_fields p) ])
        (some (payment_fields after)))

  -- `Create`
  unfoldable pub create : Outcome BindError PaymentInput → Action (Reply Payment)
  create body = do
    user ← user_id c
    input ← bound u body
    payment ← Service.create user (role_from_context c) input
    log "payment.created" payment.id none payment
    pure (created_reply payment)

  -- The end of the three handlers below.
  abbrev pub recorded : String → String → PaymentStatus → ℕ → Payment → Action (Reply Fields)
  recorded action key s id payment = do
    found ← catch (Service.find_by_id id)
    log action id (some payment) (read_again payment s found)
    pure (ok_reply (flag key))

  -- `Confirm`
  unfoldable pub confirm : Action (Reply Fields)
  confirm = do
    id ← id_param c
    payment ← Service.find_by_id id
    Service.confirm id
    given h.invoices (dropped (InvoiceService.mark_paid payment.rental_id))
    recorded "payment.confirmed" "paid" PaymentStatus.paid id payment

  -- `Fail`
  unfoldable pub fail_payment : Action (Reply Fields)
  fail_payment = do
    id ← id_param c
    payment ← Service.find_by_id id
    Service.fail_payment id
    recorded "payment.failed" "failed" failed id payment

  -- `Refund`
  unfoldable pub refund : Action (Reply Fields)
  refund = do
    id ← id_param c
    payment ← Service.find_by_id id
    Service.refund id
    recorded "payment.refunded" "refunded" refunded id payment

-- `GetByRental` of `InvoiceHandler`
unfoldable pub get_by_rental : Context → Action (Reply Invoice)
get_by_rental c = do
  user ← user_id c
  rental ← id_param c
  invoice ← InvoiceService.get_or_create user (role_from_context c) rental
  pure (ok_reply invoice)
