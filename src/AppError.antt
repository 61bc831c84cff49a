-- ===== src/AppError.antt =====
-- pkg/apperror/errors.go and internal/repository/errors.go: the errors that the services return,
-- their HTTP status and message, and how a database error becomes one of them.
-- An error value is compared by its address, so each package variable is a constructor of its own.
pub mod Mapping
use rentcar_backend.Base.{
  ℕ, String, ◌==◌, string_eq, if◌then◌else◌, Bool, true, false, ◌&&◌, ◌||◌, List, [], ◌∷◌, Outcome,
  ok, err,
}

-- What the driver and the standard library return: `pgx.ErrNoRows`, a `*pgconn.PgError` with its
-- code and constraint name, and any other error with its text.
pub data Cause : Type 0 where
  no_rows : Cause
  pg : String → String → Cause
  failure : String → Cause

-- The package variables `ErrBadRequest` … `ErrInvalidDateSpan`.
pub data Base : Type 0 where
  bad_request unauthorized forbidden not_found conflict validation internal invalid_id : Base
  invalid_auth email_not_verified car_unavailable double_booking invalid_payment : Base
  payment_exists invalid_date invalid_date_span : Base

-- `base` is a package variable, `new` a call of `New`, `wrap` one of `Wrap`; `external` is an error
-- that is no `*apperror.Error`.
pub data Error : Type 0 where
  base : Base → Error
  new : ℕ → String → Error
  wrap : Base → Cause → Error
  external : Cause → Error

abbrev pub base_status : Base → ℕ
base_status bad_request = 400
base_status unauthorized = 401
base_status forbidden = 403
base_status not_found = 404
base_status conflict = 409
base_status validation = 400
base_status internal = 500
base_status invalid_id = 400
base_status invalid_auth = 401
base_status email_not_verified = 403
base_status car_unavailable = 409
base_status double_booking = 409
base_status invalid_payment = 400
base_status payment_exists = 409
base_status invalid_date = 400
base_status invalid_date_span = 400

abbrev pub base_message : Base → String
base_message bad_request = "bad request"
base_message unauthorized = "unauthorized"
base_message forbidden = "forbidden"
base_message not_found = "resource not found"
base_message conflict = "resource conflict"
base_message validation = "validation failed"
base_message internal = "internal server error"
base_message invalid_id = "invalid id"
base_message invalid_auth = "invalid email or password"
base_message email_not_verified = "email is not verified"
base_message car_unavailable = "car is not available"
base_message double_booking = "car is already rented for selected dates"
base_message invalid_payment = "invalid payment state"
base_message payment_exists = "payment already exists for this rental"
base_message invalid_date = "invalid date"
base_message invalid_date_span = "end_date must be after or equal start_date"

-- `StatusCode`
unfoldable pub status_code : Error → ℕ
status_code (base b) = base_status b
status_code (new status _) = status
status_code (wrap b _) = base_status b
status_code (external _) = 500

-- `Message`
unfoldable pub message : Error → String
message (base b) = base_message b
message (new _ text) = text
message (wrap b _) = base_message b
message (external _) = base_message internal

-- `errors.Is(err, apperror.ErrNotFound)`: a wrapped error unwraps to its cause, not to its base.
abbrev pub is_not_found : Error → Bool
is_not_found (base not_found) = true
is_not_found _ = false

-- `mapPostgresError` of an error that is not nil
unfoldable pub map_cause : Cause → Error
map_cause no_rows = base not_found
map_cause (pg code constraint) =
    if code == "23505"
    then wrap conflict (pg code constraint)
    else if code == "23503"
    then wrap bad_request (pg code constraint)
    else if code == "23P01"
    then base double_booking
    else external (pg code constraint)
map_cause (failure text) = external (failure text)

-- `mapPostgresError`
unfoldable pub map_postgres_error : {A : Type 0} → Outcome Cause A → Outcome Error A
unfolding map_cause
map_postgres_error (ok a) = ok a
map_postgres_error (err c) = err (map_cause c)

abbrev pub any_equal : String → List String → Bool
any_equal s [] = false
any_equal s (t ∷ ts) = s == t || any_equal s ts

abbrev constraint_in : String → List String → Bool
constraint_in name [] = true
constraint_in name (n ∷ ns) = any_equal name (n ∷ ns)

-- `isPostgresConstraint`
unfoldable pub is_postgres_constraint : Cause → String → List String → Bool
is_postgres_constraint no_rows code names = false
is_postgres_constraint (pg c constraint) code names = c == code && constraint_in constraint names
is_postgres_constraint (failure text) code names = false
