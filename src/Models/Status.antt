-- ===== src/Models/Status.antt =====
-- The enumerations of internal/models.
use text.Mathlib.Text.{◌==◌ as str_eq}
use text.Mathlib.TextEquality.{eq_iff}
use rentcar_backend.Base.{String, ◌≡◌, ◌↔◌, Bool, true, false, arith, Eq}

pub data RentalStatus : Type 0 where
  requested approved rejected pending_payment confirmed active cancelled completed : RentalStatus
  other : String → RentalStatus

pub data PaymentStatus : Type 0 where
  pending paid failed refunded : PaymentStatus
  other : String → PaymentStatus

pub data PaymentMethod : Type 0 where
  cash card bank_transfer : PaymentMethod
  other : String → PaymentMethod

pub data InvoiceStatus : Type 0 where
  issued paid void : InvoiceStatus
  other : String → InvoiceStatus

pub data MaintenanceStatus : Type 0 where
  scheduled in_progress completed cancelled : MaintenanceStatus
  other : String → MaintenanceStatus

pub data CarStatus : Type 0 where
  available rented maintenance inactive : CarStatus
  other : String → CarStatus

pub data UserRole : Type 0 where
  customer admin super_admin : UserRole
  other : String → UserRole

pub data NotificationType : Type 0 where
  info success warning error : NotificationType
  other : String → NotificationType

abbrev rental_beq : RentalStatus → RentalStatus → Bool
rental_beq requested requested = true
rental_beq approved approved = true
rental_beq rejected rejected = true
rental_beq pending_payment pending_payment = true
rental_beq confirmed confirmed = true
rental_beq active active = true
rental_beq RentalStatus.cancelled RentalStatus.cancelled = true
rental_beq RentalStatus.completed RentalStatus.completed = true
rental_beq (RentalStatus.other s) (RentalStatus.other t) = str_eq s t
rental_beq _ _ = false

pub rental_beq_iff : (a b : RentalStatus) → (rental_beq a b ≡ true) ↔ (a ≡ b)
rental_beq_iff (RentalStatus.other s) (RentalStatus.other t) = ground (arith, eq_iff s t)
rental_beq_iff a b = ground arith

instance abbrev pub rental_status_eq : Eq RentalStatus
rental_status_eq = record { equal = rental_beq; equal_iff = rental_beq_iff }

abbrev payment_beq : PaymentStatus → PaymentStatus → Bool
payment_beq pending pending = true
payment_beq PaymentStatus.paid PaymentStatus.paid = true
payment_beq failed failed = true
payment_beq refunded refunded = true
payment_beq (PaymentStatus.other s) (PaymentStatus.other t) = str_eq s t
payment_beq _ _ = false

pub payment_beq_iff : (a b : PaymentStatus) → (payment_beq a b ≡ true) ↔ (a ≡ b)
payment_beq_iff (PaymentStatus.other s) (PaymentStatus.other t) = ground (arith, eq_iff s t)
payment_beq_iff a b = ground arith

instance abbrev pub payment_status_eq : Eq PaymentStatus
payment_status_eq = record { equal = payment_beq; equal_iff = payment_beq_iff }

abbrev invoice_beq : InvoiceStatus → InvoiceStatus → Bool
invoice_beq issued issued = true
invoice_beq InvoiceStatus.paid InvoiceStatus.paid = true
invoice_beq void void = true
invoice_beq (InvoiceStatus.other s) (InvoiceStatus.other t) = str_eq s t
invoice_beq _ _ = false

pub invoice_beq_iff : (a b : InvoiceStatus) → (invoice_beq a b ≡ true) ↔ (a ≡ b)
invoice_beq_iff (InvoiceStatus.other s) (InvoiceStatus.other t) = ground (arith, eq_iff s t)
invoice_beq_iff a b = ground arith

instance abbrev pub invoice_status_eq : Eq InvoiceStatus
invoice_status_eq = record { equal = invoice_beq; equal_iff = invoice_beq_iff }

abbrev maintenance_beq : MaintenanceStatus → MaintenanceStatus → Bool
maintenance_beq scheduled scheduled = true
maintenance_beq in_progress in_progress = true
maintenance_beq MaintenanceStatus.completed MaintenanceStatus.completed = true
maintenance_beq MaintenanceStatus.cancelled MaintenanceStatus.cancelled = true
maintenance_beq (MaintenanceStatus.other s) (MaintenanceStatus.other t) = str_eq s t
maintenance_beq _ _ = false

pub maintenance_beq_iff : (a b : MaintenanceStatus) → (maintenance_beq a b ≡ true) ↔ (a ≡ b)
maintenance_beq_iff (MaintenanceStatus.other s) (MaintenanceStatus.other t) =
    ground (arith, eq_iff s t)
maintenance_beq_iff a b = ground arith

instance abbrev pub maintenance_status_eq : Eq MaintenanceStatus
maintenance_status_eq = record { equal = maintenance_beq; equal_iff = maintenance_beq_iff }

abbrev car_beq : CarStatus → CarStatus → Bool
car_beq available available = true
car_beq rented rented = true
car_beq maintenance maintenance = true
car_beq inactive inactive = true
car_beq (CarStatus.other s) (CarStatus.other t) = str_eq s t
car_beq _ _ = false

pub car_beq_iff : (a b : CarStatus) → (car_beq a b ≡ true) ↔ (a ≡ b)
car_beq_iff (CarStatus.other s) (CarStatus.other t) = ground (arith, eq_iff s t)
car_beq_iff a b = ground arith

instance abbrev pub car_status_eq : Eq CarStatus
car_status_eq = record { equal = car_beq; equal_iff = car_beq_iff }

abbrev role_beq : UserRole → UserRole → Bool
role_beq customer customer = true
role_beq admin admin = true
role_beq super_admin super_admin = true
role_beq (UserRole.other s) (UserRole.other t) = str_eq s t
role_beq _ _ = false

pub role_beq_iff : (a b : UserRole) → (role_beq a b ≡ true) ↔ (a ≡ b)
role_beq_iff (UserRole.other s) (UserRole.other t) = ground (arith, eq_iff s t)
role_beq_iff a b = ground arith

instance abbrev pub user_role_eq : Eq UserRole
user_role_eq = record { equal = role_beq; equal_iff = role_beq_iff }
