-- ===== src/Web/Rentals/Notified.antt =====
-- internal/handler/rental_handler.go: the handler of rentals, and what it tells the customer of a status.
use rentcar_backend.Base.{
  ◌==◌, string_eq, if◌then◌else◌, Bool, true, false, String, List, [], ◌∷◌, Option, none, some,
}
use rentcar_backend.Models.{
  RentalStatus, approved, rejected, Rental, User, NotificationType, success, warning,
}
use rentcar_backend.Store.{Action, pure, ◌>>◌}
use rentcar_backend.Notices.Notifications.{create_notification}
use rentcar_backend.Web.Replies.{RentalMail, dropped, given}

-- The services beside that of rentals that `NewRentalHandler` may be given.
pub data Extra : Type 0 where
  notification_service email_sender audit_service : Extra

pub record RentalHandler : Type 0 where
  pub notifications : Bool
  pub emails : Bool
  pub audit_log : Bool

abbrev with_extra : RentalHandler → Extra → RentalHandler
with_extra h notification_service = record h { notifications = true }
with_extra h email_sender = record h { emails = true }
with_extra h audit_service = record h { audit_log = true }

abbrev with_extras : RentalHandler → List Extra → RentalHandler
with_extras h [] = h
with_extras h (e ∷ es) = with_extras (with_extra h e) es

-- `NewRentalHandler`
unfoldable pub new_rental_handler : List Extra → RentalHandler
new_rental_handler extras =
    with_extras (record { notifications = false; emails = false; audit_log = false }) extras

-- `rentalStatusNotification`: title, message and type
unfoldable pub rental_status_notification :
    RentalStatus → Option (String × String × NotificationType)
rental_status_notification approved =
    some (
      "Rental approved", "Your booking was approved. You can create a payment request now.",
      success,
    )
rental_status_notification rejected =
    some ("Rental rejected", "Your booking request was rejected by admin.", warning)
rental_status_notification RentalStatus.cancelled =
    some ("Rental cancelled", "Your booking was cancelled by admin.", warning)
rental_status_notification _ = none

abbrev is_given : {A : Type 0} → Option A → Bool
is_given none = false
is_given (some _) = true

-- `shouldNotifyRentalStatus`
abbrev pub should_notify : RentalStatus → Bool
should_notify s = is_given (rental_status_notification s)

-- The email of `notifyRentalStatus`.
abbrev pub mail_to : Rental → Option User → List RentalMail
mail_to rental none = []
mail_to rental (some u) =
    if u.email == ""
    then []
    else record { to_email = u.email; to_name = u.name; rental = rental } ∷ []

abbrev pub mails_of : Bool → Rental → List RentalMail
mails_of emails rental = if emails then mail_to rental rental.user else []

abbrev pub notified :
    RentalHandler → Rental → Option (String × String × NotificationType) → Action (List RentalMail)
notified h rental none = pure []
notified h rental (some (title, message, kind)) =
    given h.notifications (
      dropped (
        create_notification (record {
          user_id = some rental.row.user_id;
          title = title;
          message = message;
          kind = kind;
        })))
    >> pure (mails_of h.emails rental)

-- `notifyRentalStatus` of a rental that is not nil; the emails that it sends
unfoldable pub notify_rental_status : RentalHandler → Rental → Action (List RentalMail)
notify_rental_status h rental = notified h rental (rental_status_notification rental.row.status)
