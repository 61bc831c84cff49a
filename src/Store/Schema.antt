-- ===== src/Store/Schema.antt =====
-- The tables as lists of rows, the newest first, the sequences of their identifiers, and the world
-- in which a request runs.
use rentcar_backend.Base.{ℕ, Option, List}
use rentcar_backend.AppError.{Cause}
use rentcar_backend.Models.{
  User, Car, RentalRow, Payment, Invoice, CarMaintenance, AuthToken, Notification, AuditLog,
}

pub record Database : Type 0 where
  pub users : List User
  pub cars : List Car
  pub rentals : List RentalRow
  pub payments : List Payment
  pub invoices : List Invoice
  pub maintenances : List CarMaintenance
  pub tokens : List AuthToken
  pub notifications : List Notification
  pub audit_logs : List AuditLog
  pub next_user : ℕ
  pub next_car : ℕ
  pub next_rental : ℕ
  pub next_payment : ℕ
  pub next_invoice : ℕ
  pub next_maintenance : ℕ
  pub next_token : ℕ
  pub next_notification : ℕ
  pub next_audit_log : ℕ

-- `faults` says for each call of the driver to come whether it fails with an error of its own (a
-- lost connection, a timeout); past its end no call fails. `now` is the time of the request in
-- nanoseconds, for the program's clock and the database's. `others` says what the requests that run
-- beside this one commit before each of its calls of a repository; past its end they commit nothing.
pub record World : Type 0 where
  pub db : Database
  pub others : List (Database → Database)
  pub faults : List (Option Cause)
  pub now : ℕ
