-- ===== src/Models/Rows.antt =====
-- The records of internal/models.
use rentcar_backend.Base.{ℕ, String, Option}
use rentcar_backend.Models.Status.{
  RentalStatus, PaymentStatus, PaymentMethod, InvoiceStatus, MaintenanceStatus, CarStatus, UserRole,
  NotificationType,
}

pub record User : Type 0 where
  pub id : ℕ
  pub name : String
  pub email : String
  pub phone : String
  pub password_hash : String
  pub role : UserRole
  pub email_verified_at : Option ℕ
  pub email_verification_code_hash : String
  pub email_verification_expires_at : Option ℕ
  pub email_verification_sent_at : Option ℕ
  pub email_verification_attempts : ℕ
  pub created_at : ℕ
  pub updated_at : ℕ

pub record Car : Type 0 where
  pub id : ℕ
  pub brand : String
  pub model : String
  pub year : ℕ
  pub plate_number : String
  pub daily_rate : ℕ
  pub seats : ℕ
  pub fuel : String
  pub transmission : String
  pub status : CarStatus
  pub image : String
  pub created_at : ℕ
  pub updated_at : ℕ

pub record Payment : Type 0 where
  pub id : ℕ
  pub rental_id : ℕ
  pub amount : ℕ
  pub method : PaymentMethod
  pub status : PaymentStatus
  pub paid_at : Option ℕ
  pub created_at : ℕ
  pub updated_at : ℕ

-- The columns of the table `rentals`, which are the plain fields of `models.Rental`.
pub record RentalRow : Type 0 where
  pub id : ℕ
  pub user_id : ℕ
  pub car_id : ℕ
  pub start_date : ℕ
  pub end_date : ℕ
  pub total_amount : ℕ
  pub status : RentalStatus
  pub created_at : ℕ
  pub updated_at : ℕ

-- `models.Rental`: the row, and what a query may join to it.
pub record Rental : Type 0 where
  pub row : RentalRow
  pub payment : Option Payment
  pub user : Option User
  pub car : Option Car

pub record Invoice : Type 0 where
  pub id : ℕ
  pub rental_id : ℕ
  pub invoice_number : String
  pub amount : ℕ
  pub status : InvoiceStatus
  pub issued_at : ℕ
  pub due_at : Option ℕ
  pub paid_at : Option ℕ
  pub created_at : ℕ
  pub updated_at : ℕ

pub record CarMaintenance : Type 0 where
  pub id : ℕ
  pub car_id : ℕ
  pub start_date : ℕ
  pub end_date : ℕ
  pub reason : String
  pub status : MaintenanceStatus
  pub notes : String
  pub created_by : Option ℕ
  pub created_at : ℕ
  pub updated_at : ℕ

pub record AuthToken : Type 0 where
  pub id : ℕ
  pub user_id : ℕ
  pub token_hash : String
  pub user_agent : String
  pub ip_address : String
  pub expires_at : ℕ
  pub revoked_at : Option ℕ
  pub last_used_at : Option ℕ
  pub created_at : ℕ

pub record Notification : Type 0 where
  pub id : ℕ
  pub user_id : Option ℕ
  pub title : String
  pub message : String
  pub kind : NotificationType
  pub read_at : Option ℕ
  pub created_at : ℕ

pub record AuditActor : Type 0 where
  pub id : ℕ
  pub name : String
  pub email : String
  pub role : UserRole

pub record AuditLog : Type 0 where
  pub id : ℕ
  pub actor_id : Option ℕ
  pub actor : Option AuditActor
  pub action : String
  pub entity_type : String
  pub entity_id : Option ℕ
  pub metadata : String
  pub ip_address : String
  pub user_agent : String
  pub created_at : ℕ
