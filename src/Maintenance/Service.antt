-- ===== src/Maintenance/Service.antt =====
-- internal/service/maintenance_service.go: the windows in which a car is serviced, and the status of
-- the car that follows them.
use rentcar_backend.Base.{
  ℕ, ◌==◌, nat_eq, string_eq, if◌then◌else◌, Bool, true, false, not, ◌&&◌, ltb, String, none, some,
  List, [], ◌∷◌,
}
use rentcar_backend.AppError.{new}
use rentcar_backend.Models.{
  MaintenanceStatus, scheduled, in_progress, CarMaintenance, CarStatus, maintenance_status_eq,
  car_status_eq,
}
use rentcar_backend.Store.{Action, pure, ◌>>=◌, ◌>>◌, require, gets, call, today}
use rentcar_backend.Rentals.Repository.{when}
use rentcar_backend.Rentals.Service.Handlers.{parse_rental_dates, lift}
use rentcar_backend.Cars.Repository as CarRepository
use rentcar_backend.Maintenance.Repository
use rentcar_backend.Maintenance.Repository.{Filter, ListResult}

pub record MaintenanceInput : Type 0 where
  pub car_id : ℕ
  pub start_date : String
  pub end_date : String
  pub reason : String
  pub status : MaintenanceStatus
  pub notes : String

-- `validMaintenanceStatus`
abbrev pub valid_status : MaintenanceStatus → Bool
valid_status scheduled = true
valid_status in_progress = true
valid_status MaintenanceStatus.completed = true
valid_status MaintenanceStatus.cancelled = true
valid_status (MaintenanceStatus.other _) = false

-- The loop of `hasActiveMaintenance` over the statuses.
unfoldable pub any_in_status : ℕ → List MaintenanceStatus → Action Bool
any_in_status car [] = pure false
any_in_status car (s ∷ rest) = do
  result ← call (Repository.list (record { car_id = car; status = s; page = 1; page_size = 1 }))
  (if ltb 0 result.total then pure true else any_in_status car rest)

-- `hasActiveMaintenance`
unfoldable pub has_active_maintenance : ℕ → Action Bool
has_active_maintenance car = any_in_status car (scheduled ∷ in_progress ∷ [])

-- The status that a car has once it is known whether its maintenance is active.
abbrev pub synced_status : Bool → CarStatus → CarStatus
synced_status true s = CarStatus.maintenance
synced_status false s = if s == CarStatus.maintenance then CarStatus.available else s

-- `syncCarMaintenanceStatus`
unfoldable pub sync_car_status : ℕ → Action (Unit {0})
sync_car_status id = do
  car ← call (CarRepository.find_by_id id)
  active ← has_active_maintenance id
  (if synced_status active car.status == car.status
      then pure tt
      else call
          (CarRepository.update_by_id (record car { status = synced_status active car.status }))
        >> pure tt)

abbrev input_status : MaintenanceStatus → MaintenanceStatus
input_status s = if s == MaintenanceStatus.other "" then scheduled else s

-- `Create`
unfoldable pub create : ℕ → MaintenanceInput → Action CarMaintenance
create actor input = do
  day ← gets today
  span ← lift (parse_rental_dates day input.start_date input.end_date)
  call (CarRepository.find_by_id input.car_id)
  require
      (when (not (valid_status (input_status input.status))) (new 400 "invalid maintenance status"))
  item ← call (
      Repository.create (record {
        id = 0;
        car_id = input.car_id;
        start_date = span.start;
        end_date = span.end;
        reason = input.reason;
        status = input_status input.status;
        notes = input.notes;
        created_by = some actor;
        created_at = 0;
        updated_at = 0;
      }))
  sync_car_status item.car_id
  pure item

-- `Update`
unfoldable pub update : ℕ → MaintenanceInput → Action CarMaintenance
update id input = do
  current ← call (Repository.find_by_id id)
  day ← gets today
  span ← lift (parse_rental_dates day input.start_date input.end_date)
  call (CarRepository.find_by_id input.car_id)
  require
      (when (not (valid_status (input_status input.status))) (new 400 "invalid maintenance status"))
  item ← call (
      Repository.update_by_id (record {
        id = id;
        car_id = input.car_id;
        start_date = span.start;
        end_date = span.end;
        reason = input.reason;
        status = input_status input.status;
        notes = input.notes;
        created_by = none;
        created_at = 0;
        updated_at = 0;
      }))
  (if current.car_id == item.car_id then pure tt else sync_car_status current.car_id)
  sync_car_status item.car_id
  pure item

-- `Delete`
unfoldable pub delete : ℕ → Action (Unit {0})
delete id = do
  item ← call (Repository.find_by_id id)
  call (Repository.delete id)
  sync_car_status item.car_id

-- `FindByID`
unfoldable pub find_by_id : ℕ → Action CarMaintenance
find_by_id id = call (Repository.find_by_id id)

-- `List`
unfoldable pub list : Filter → Action ListResult
list input = do
  require (
      when (not (input.status == MaintenanceStatus.other "") && not (valid_status input.status))
        (new 400 "invalid maintenance status"))
  call (Repository.list input)
