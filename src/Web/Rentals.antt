-- ===== src/Web/Rentals.antt =====
-- internal/handler/rental_handler.go.
pub mod Notified
pub use rentcar_backend.Web.Rentals.Notified.{
  Extra, notification_service, email_sender, audit_service, RentalHandler, should_notify, mail_to,
  mails_of, notified,
}
unfoldable pub use rentcar_backend.Web.Rentals.Notified.{
  new_rental_handler, rental_status_notification, notify_rental_status,
}
use rentcar_backend.Base.{
  ℕ, ◌==◌, string_eq, if◌then◌else◌, true, not, ◌&&◌, ◌||◌, String, List, [], some, Outcome, ok,
  err,
}
use rentcar_backend.AppError.{Error, new}
use rentcar_backend.Models.{
  RentalStatus, approved, rejected, RentalRow, Rental, admin, super_admin, info, rental_status_eq,
  user_role_eq,
}
use rentcar_backend.Models.Texts.{rental_status_of, payment_status_of}
use rentcar_backend.Text.{Unicode}
use rentcar_backend.Store.{Action, pure, ◌>>=◌, ◌>>◌, require, catch}
use rentcar_backend.Rentals.Repository.{when}
use rentcar_backend.Rentals.Filtered.{RentalListResult}
use rentcar_backend.Rentals.Calendar.{CalendarResult, availability_calendar}
use rentcar_backend.Rentals.Service.Handlers.{
  RentalInput, AvailabilityResult, check_availability, with_status,
}
use rentcar_backend.Rentals.Service.Handlers as Service
use rentcar_backend.Rentals.Service.Listing.{RentalListInput}
use rentcar_backend.Rentals.Service.Listing as Listing
use rentcar_backend.Notices.Audits.{Json}
use rentcar_backend.Notices.Notifications.{create_notification}
use rentcar_backend.Web.Json.{Fields, boolean, end, field}
use rentcar_backend.Web.Encoded.{rental_fields}
use rentcar_backend.Web.Params.{id_param, user_id, optional}
use rentcar_backend.Web.Replies.{
  Context, Reply, RentalMail, ok_reply, created_reply, role_from_context, dropped, given,
}
use rentcar_backend.Web.Trail.{audit, audit_metadata}
use rentcar_backend.Web.Validator.{BindError, bound}

-- `gin.H{key: true}`
abbrev pub flag : String → Fields
flag key = field key (boolean true) end

-- `parseRentalListInput`
unfoldable pub parse_rental_list_input : Context → Action RentalListInput
parse_rental_list_input c = do
  user ← optional c "user_id" "invalid user_id"
  car ← optional c "car_id" "invalid car_id"
  page ← optional c "page" "invalid page"
  page_size ← optional c "page_size" "invalid page_size"
  pure (record {
    status = rental_status_of (c.query "status");
    payment_status = payment_status_of (c.query "payment_status");
    user_id = user;
    car_id = car;
    start_from = c.query "start_from";
    end_to = c.query "end_to";
    page = page;
    page_size = page_size;
  })

-- `Availability`
unfoldable pub availability : Context → Action (Reply AvailabilityResult)
availability c = do
  id ← id_param c
  require (
      when (c.query "start_date" == "" || c.query "end_date" == "")
        (new 400 "start_date and end_date are required"))
  found ←
      check_availability
        (record { car_id = id; start_date = c.query "start_date"; end_date = c.query "end_date" })
  pure (ok_reply found)

-- `Calendar`
unfoldable pub calendar : Context → Action (Reply CalendarResult)
calendar c = do
  id ← id_param c
  found ← availability_calendar true (record { car_id = id; month = c.query "month" })
  pure (ok_reply found)

-- `MyRentals`
unfoldable pub my_rentals : Context → Action (Reply (List Rental))
my_rentals c = do user ← user_id c; found ← Listing.list_by_user_id user; pure (ok_reply found)

-- `GetByID`
unfoldable pub get_by_id : Context → Action (Reply Rental)
get_by_id c = do
  user ← user_id c
  id ← id_param c
  rental ← Service.find_by_id user (role_from_context c) id
  pure (ok_reply rental)

-- `ListAll`
unfoldable pub list_all : Context → Action (Reply RentalListResult)
list_all c = do
  input ← parse_rental_list_input c
  found ← Listing.list_all input
  pure (ok_reply found)

-- A rental as an administrator reads it.
abbrev pub read_as_admin : ℕ → Action Rental
read_as_admin id = Service.find_by_id 0 super_admin id

module _ (json : Json) (u : Unicode) (h : RentalHandler) (c : Context) where
  -- The notification of `Create`.
  abbrev requested_notice : ℕ → Action (Unit {0})
  requested_notice user = given h.notifications (
      dropped (
        create_notification (record {
          user_id = some user;
          title = "Rental requested";
          message = "Your booking request was sent to admin for approval.";
          kind = info;
        })))

  -- `Create`
  unfoldable pub create : Outcome BindError RentalInput → Action (Reply RentalRow)
  create body = do
    user ← user_id c
    input ← bound u body
    rental ← Service.create user input
    requested_notice user
    pure (created_reply rental)

  abbrev pub log : String → ℕ → Rental → Rental → Action (Unit {0})
  log action id before after =
      audit json h.audit_log c action "rental" id
        (audit_metadata (some (rental_fields before)) (some (rental_fields after)))

  abbrev pub with_mails : {A : Type 0} → List RentalMail → A → Reply A
  with_mails mails a = record (ok_reply a) { mails = mails }

  abbrev notice_of_change : Rental → RentalStatus → Action (List RentalMail)
  notice_of_change rental next =
      if not (rental.row.status == next) && should_notify next
      then notify_rental_status h (with_status next rental)
      else pure []

  -- `UpdateStatus`, of the status in the body
  unfoldable pub update_status : Outcome BindError RentalStatus → Action (Reply Fields)
  update_status body = do
    id ← id_param c
    next ← bound u body
    rental ← read_as_admin id
    Service.update_status id next
    mails ← notice_of_change rental next
    log "rental.status_updated" id rental (with_status next rental)
    pure (with_mails mails (flag "updated"))

  -- `Approve`
  unfoldable pub approve : Action (Reply Rental)
  approve = do
    id ← id_param c
    before ← read_as_admin id
    rental ← Service.approve id
    mails ← notify_rental_status h rental
    log "rental.approved" id before rental
    pure (with_mails mails rental)

  -- `Reject`
  unfoldable pub reject : Action (Reply Rental)
  reject = do
    id ← id_param c
    before ← read_as_admin id
    rental ← Service.reject id
    mails ← notify_rental_status h rental
    log "rental.rejected" id before rental
    pure (with_mails mails rental)

  -- What `Cancel` reads again and tells the customer, where an administrator cancels; where that fails, and
  -- for a customer, the rental that was read before.
  abbrev pub told : Rental → Outcome Error Rental → Action (Rental × List RentalMail)
  told before (ok rental) = do mails ← notify_rental_status h rental; pure (rental, mails)
  told before (err e) = pure (with_status RentalStatus.cancelled before, [])

  abbrev pub after_cancelling : ℕ → Rental → Action (Rental × List RentalMail)
  after_cancelling id before =
      if role_from_context c == admin || role_from_context c == super_admin
      then (do again ← catch (read_as_admin id); told before again)
      else pure (with_status RentalStatus.cancelled before, [])

  -- `Cancel`
  unfoldable pub cancel : Action (Reply Fields)
  cancel = do
    user ← user_id c
    id ← id_param c
    before ← read_as_admin id
    Service.cancel user (role_from_context c) id
    (after, mails) ← after_cancelling id before
    log "rental.cancelled" id before after
    pure (with_mails mails (flag "cancelled"))
