-- ===== src/Mail.antt =====
-- internal/service/email_sender.go: the settings of the sender, and the texts of its emails. The order in which Go's
-- loop over the map of headers takes them is an argument; the conversation with the server is the library's.
use Prim.Native.String.{◌++◌}
use rentcar_backend.Base.{
  ◌==◌, string_eq, if◌then◌else◌, Bool, not, ◌||◌, String, List, [], ◌∷◌, Option, none, some,
}
use rentcar_backend.Models.{RentalStatus, approved, rejected, Rental, Car}
use rentcar_backend.Dates.Civil.{date_text}
use rentcar_backend.Text.{trim_space}
use rentcar_backend.Text.Decimal.{decimal}

-- `EmailSenderConfig`
pub record EmailSenderConfig : Type 0 where
  pub host : String
  pub port : String
  pub username : String
  pub password : String
  pub from : String
  pub from_name : String
  pub use_tls : Bool

-- `SMTPEmailSender` and `LoggingEmailSender`
pub data EmailSender : Type 0 where
  smtp : EmailSenderConfig → EmailSender
  logging : EmailSender

abbrev or_default : String → String → String
or_default s default = if s == "" then default else s

abbrev sender_for : EmailSenderConfig → EmailSender
sender_for c = if c.host == "" then logging else smtp c

-- `NewEmailSender`
unfoldable pub new_email_sender : EmailSenderConfig → EmailSender
new_email_sender c = sender_for (record c {
  host = trim_space c.host;
  port = or_default (trim_space c.port) "587";
  from = or_default (trim_space c.from) "no-reply@rentcar.local";
  from_name = or_default (trim_space c.from_name) "RentCar";
  username = trim_space c.username;
})

-- What `sendMail` and `smtpClient` ask the library for, one after another, if nothing fails; TLS from the start
-- on port 465 too, and otherwise where the server offers STARTTLS.
pub data SmtpStep : Type 0 where
  dial_tls dial start_tls : SmtpStep
  authenticate : String → SmtpStep
  mail_from rcpt_to write_data : String → SmtpStep
  quit : SmtpStep

abbrev connecting : EmailSenderConfig → Bool → List SmtpStep → List SmtpStep
connecting c offers_tls rest =
    if c.use_tls || c.port == "465"
    then dial_tls ∷ rest
    else if offers_tls
    then dial ∷ start_tls ∷ rest
    else dial ∷ rest

abbrev signing_in : EmailSenderConfig → List SmtpStep → List SmtpStep
signing_in c rest =
    if not (c.username == "") || not (c.password == "")
    then authenticate c.username ∷ rest
    else rest

unfoldable pub send_mail : EmailSenderConfig → Bool → String → String → List SmtpStep
send_mail c offers_tls to message =
    connecting c offers_tls
      (signing_in c (mail_from c.from ∷ rcpt_to to ∷ write_data message ∷ quit ∷ []))

pub record Header : Type 0 where
  pub key : String
  pub value : String

abbrev header_lines : List Header → String → String
header_lines [] rest = rest
header_lines (h ∷ hs) rest = h.key ++ (": " ++ (h.value ++ ("\r\n" ++ header_lines hs rest)))

-- The end of both messages: the headers, an empty line, the body.
unfoldable pub written : List Header → String → String
written hs body = header_lines hs ("\r\n" ++ body)

abbrev headers : String → String → String → String → List Header
headers from from_name to subject =
    record { key = "From"; value = from_name ++ (" <" ++ (from ++ ">")) }
    ∷ record { key = "To"; value = to }
    ∷ record { key = "Subject"; value = subject }
    ∷ record { key = "MIME-Version"; value = "1.0" }
    ∷ record { key = "Content-Type"; value = "text/plain; charset=UTF-8" }
    ∷ []

abbrev or_there : String → String
or_there name = if trim_space name == "" then "there" else name

abbrev pub Order : Type 0
Order = List Header → List Header

abbrev verification_body : String → String → String
verification_body name text =
    "Hi "
    ++ (name
        ++ (",\n\nYour RentCar verification code is: "
            ++ (text
                ++ "\n\nThis code expires soon. If you did not create an account, you can ignore this email.\n")))

-- `verificationEmailMessage`
unfoldable pub verification_message : Order → String → String → String → String → String → String
unfolding written
verification_message order from from_name to to_name text =
    written (order (headers from from_name to "Your RentCar verification code"))
      (verification_body (or_there to_name) text)

-- What the status of a rental puts into a message: the subject, the word for it, and what comes next.
pub record StatusTexts : Type 0 where
  pub subject : String
  pub word : String
  pub next_step : String

abbrev pub status_texts : Option RentalStatus → StatusTexts
status_texts (some approved) = record {
  subject = "Your RentCar booking was approved";
  word = "approved";
  next_step = "You can now open your dashboard and create a payment request.";
}
status_texts (some rejected) = record {
  subject = "Your RentCar booking was rejected";
  word = "rejected";
  next_step = "You can choose another car or select different rental dates.";
}
status_texts (some RentalStatus.cancelled) = record {
  subject = "Your RentCar booking was cancelled";
  word = "cancelled";
  next_step = "If you have questions about this change, please contact the administrator.";
}
status_texts _ = record {
  subject = "Your RentCar booking was updated";
  word = "updated";
  next_step = "Please open your RentCar dashboard to view the latest booking details.";
}

abbrev plate : Car → String
plate c = if c.plate_number == "" then "" else " (" ++ (c.plate_number ++ ")")

abbrev car_label : Option Car → String
car_label none = "your selected car"
car_label (some c) = trim_space (c.brand ++ (" " ++ c.model)) ++ plate c

abbrev date_range : Rental → String
date_range r = " from " ++ (date_text r.row.start_date ++ (" to " ++ date_text r.row.end_date))

abbrev status_body : String → String → String → String → StatusTexts → String
status_body name id label dates t =
    "Hi "
    ++ (name
        ++ (",\n\nYour RentCar booking #"
            ++ (id
                ++ (" for "
                    ++ (label
                        ++ (dates
                            ++ (" was "
                                ++ (t.word
                                    ++ (" by admin.\n\n"
                                        ++ (t.next_step
                                            ++ "\n\nThank you for using RentCar.\n"))))))))))

abbrev rental_body : String → StatusTexts → Option Rental → String
rental_body name t none = status_body name "0" "your selected car" "" t
rental_body name t (some r) =
    status_body name (decimal 1 r.row.id) (car_label r.car) (date_range r) t

abbrev status_of : Option Rental → Option RentalStatus
status_of none = none
status_of (some r) = some r.row.status

-- `rentalStatusEmailMessage`
unfoldable pub rental_status_message :
    Order → String → String → String → String → Option Rental → String
unfolding written
rental_status_message order from from_name to to_name rental =
    let t = status_texts (status_of rental) in
    written (order (headers from from_name to t.subject)) (rental_body (or_there to_name) t rental)
