-- ===== src/Models/Texts.antt =====
-- The texts of the enumerations of internal/models, and the value that a text of a request is.
use rentcar_backend.Base.{◌==◌, string_eq, if◌then◌else◌, ◌≡◌, String, arith}
use rentcar_backend.Models.Status.{
  RentalStatus, requested, approved, rejected, pending_payment, confirmed, active, PaymentStatus,
  pending, failed, refunded, PaymentMethod, cash, card, bank_transfer, MaintenanceStatus, scheduled,
  in_progress, CarStatus, available, rented, maintenance, inactive, UserRole, customer, admin,
  super_admin,
}

-- The texts of the enumerations.
unfoldable pub rental_status_text : RentalStatus → String
rental_status_text requested = "requested"
rental_status_text approved = "approved"
rental_status_text rejected = "rejected"
rental_status_text pending_payment = "pending_payment"
rental_status_text confirmed = "confirmed"
rental_status_text active = "active"
rental_status_text RentalStatus.cancelled = "cancelled"
rental_status_text RentalStatus.completed = "completed"
rental_status_text (RentalStatus.other s) = s

unfoldable pub payment_status_text : PaymentStatus → String
payment_status_text pending = "pending"
payment_status_text PaymentStatus.paid = "paid"
payment_status_text failed = "failed"
payment_status_text refunded = "refunded"
payment_status_text (PaymentStatus.other s) = s

unfoldable pub payment_method_text : PaymentMethod → String
payment_method_text cash = "cash"
payment_method_text card = "card"
payment_method_text bank_transfer = "bank_transfer"
payment_method_text (PaymentMethod.other s) = s

unfoldable pub maintenance_status_text : MaintenanceStatus → String
maintenance_status_text scheduled = "scheduled"
maintenance_status_text in_progress = "in_progress"
maintenance_status_text MaintenanceStatus.completed = "completed"
maintenance_status_text MaintenanceStatus.cancelled = "cancelled"
maintenance_status_text (MaintenanceStatus.other s) = s

unfoldable pub car_status_text : CarStatus → String
car_status_text available = "available"
car_status_text rented = "rented"
car_status_text maintenance = "maintenance"
car_status_text inactive = "inactive"
car_status_text (CarStatus.other s) = s

unfoldable pub role_text : UserRole → String
role_text customer = "customer"
role_text admin = "admin"
role_text super_admin = "super_admin"
role_text (UserRole.other s) = s

-- The conversions of texts, such as `models.RentalStatus(c.Query("status"))`.
unfoldable pub rental_status_of : String → RentalStatus
rental_status_of s =
    if s == "requested"
    then requested
    else if s == "approved"
    then approved
    else if s == "rejected"
    then rejected
    else if s == "pending_payment"
    then pending_payment
    else if s == "confirmed"
    then confirmed
    else if s == "active"
    then active
    else if s == "cancelled"
    then RentalStatus.cancelled
    else if s == "completed"
    then RentalStatus.completed
    else RentalStatus.other s

unfoldable pub payment_status_of : String → PaymentStatus
payment_status_of s =
    if s == "pending"
    then pending
    else if s == "paid"
    then PaymentStatus.paid
    else if s == "failed"
    then failed
    else if s == "refunded"
    then refunded
    else PaymentStatus.other s

unfoldable pub maintenance_status_of : String → MaintenanceStatus
maintenance_status_of s =
    if s == "scheduled"
    then scheduled
    else if s == "in_progress"
    then in_progress
    else if s == "completed"
    then MaintenanceStatus.completed
    else if s == "cancelled"
    then MaintenanceStatus.cancelled
    else MaintenanceStatus.other s

unfoldable pub car_status_of : String → CarStatus
car_status_of s =
    if s == "available"
    then available
    else if s == "rented"
    then rented
    else if s == "maintenance"
    then maintenance
    else if s == "inactive"
    then inactive
    else CarStatus.other s

unfoldable pub role_of : String → UserRole
role_of s =
    if s == "customer"
    then customer
    else if s == "admin"
    then admin
    else if s == "super_admin"
    then super_admin
    else UserRole.other s

pub rental_status_text-of : (s : String) → rental_status_text (rental_status_of s) ≡ s
unfolding rental_status_text rental_status_of
rental_status_text-of s = ground (
  arith,
  string_eq.equal_iff s "requested",
  string_eq.equal_iff s "approved",
  string_eq.equal_iff s "rejected",
  string_eq.equal_iff s "pending_payment",
  string_eq.equal_iff s "confirmed",
  string_eq.equal_iff s "active",
  string_eq.equal_iff s "cancelled",
  string_eq.equal_iff s "completed",
)

pub payment_status_text-of : (s : String) → payment_status_text (payment_status_of s) ≡ s
unfolding payment_status_text payment_status_of
payment_status_text-of s = ground (
  arith,
  string_eq.equal_iff s "pending",
  string_eq.equal_iff s "paid",
  string_eq.equal_iff s "failed",
  string_eq.equal_iff s "refunded",
)

pub maintenance_status_text-of :
    (s : String) → maintenance_status_text (maintenance_status_of s) ≡ s
unfolding maintenance_status_text maintenance_status_of
maintenance_status_text-of s = ground (
  arith,
  string_eq.equal_iff s "scheduled",
  string_eq.equal_iff s "in_progress",
  string_eq.equal_iff s "completed",
  string_eq.equal_iff s "cancelled",
)

pub car_status_text-of : (s : String) → car_status_text (car_status_of s) ≡ s
unfolding car_status_text car_status_of
car_status_text-of s = ground (
  arith,
  string_eq.equal_iff s "available",
  string_eq.equal_iff s "rented",
  string_eq.equal_iff s "maintenance",
  string_eq.equal_iff s "inactive",
)

pub role_text-of : (s : String) → role_text (role_of s) ≡ s
unfolding role_text role_of
role_text-of s = ground (
  arith,
  string_eq.equal_iff s "customer",
  string_eq.equal_iff s "admin",
  string_eq.equal_iff s "super_admin",
)
