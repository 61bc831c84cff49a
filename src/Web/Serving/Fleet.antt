-- ===== src/Web/Serving/Fleet.antt =====
-- The handlers of cars, maintenances, notices and reports, and those that only read, and the invariant.
use Prim.Native.Char.{Char}
use rentcar_backend.Base.{ℕ, Bool, true, false, List, [], ◌∷◌, Outcome, ltb}
use rentcar_backend.Models.{MaintenanceStatus}
use rentcar_backend.Text.{Unicode}
use rentcar_backend.Store.Calm.{Keeps, keeps_pure, keeps_bind, keeps_call}
use rentcar_backend.Cars.Service as CarService
use rentcar_backend.Cars.Service.{CarInput}
use rentcar_backend.Maintenance.Service as MaintenanceService
use rentcar_backend.Maintenance.Service.{MaintenanceInput}
use rentcar_backend.Rentals.Calendar.{availability_calendar, month_calendar}
use rentcar_backend.Rentals.Service.Handlers.{check_availability}
use rentcar_backend.Rentals.Service.Handlers as RentalService
use rentcar_backend.Rentals.Service.Listing as RentalListing
use rentcar_backend.Reports.Service as ReportService
use rentcar_backend.Notices.Audits.{Json}
use rentcar_backend.Coherence.{IsCoherent}
use rentcar_backend.Web.Rentals as Rentals
use rentcar_backend.Web.Cars as Cars
use rentcar_backend.Web.Cars.{RateParser}
use rentcar_backend.Web.Maintenance as Maintenance
use rentcar_backend.Web.Notices as Notices
use rentcar_backend.Web.Reports as Reports
use rentcar_backend.Web.Replies.{Context}
use rentcar_backend.Web.Validator.{BindError}
use rentcar_backend.Web.Serving.Quiet.{keeps_if}
use rentcar_backend.Web.Serving.Services.{find_rental-keeps, find_car-keeps, is_available-keeps}
use rentcar_backend.Web.Serving.Others.{
  create_car-keeps, update_car-keeps, delete_car-keeps, create_maintenance-keeps,
  update_maintenance-keeps, delete_maintenance-keeps, find_maintenance-keeps,
  read_notification-keeps,
}
use rentcar_backend.Web.Serving.Listings.{
  list_by_user-keeps, calendar_ranges-keeps, maintenance_ranges-keeps, list_rentals-keeps,
  list_cars-keeps, list_maintenances-keeps, list_audits-keeps, list_notifications-keeps,
  count_unread-keeps, report-keeps,
}
use rentcar_backend.Web.Serving.Handlers.{chain, audit-keeps}

ruleset cars = (
  chain, audit-keeps, find_car-keeps, create_car-keeps, update_car-keeps, delete_car-keeps,
  list_cars-keeps,
)

module _ (json : Json) (u : Unicode) (has_audit : Bool) (c : Context) where
  pub create_car_handler-keeps :
      (body : Outcome BindError CarInput) → Keeps IsCoherent (Cars.create json u has_audit c body)
  unfolding Cars.create CarService.create
  create_car_handler-keeps body = search cars depth 40

  pub update_car_handler-keeps :
      (body : Outcome BindError CarInput) → Keeps IsCoherent (Cars.update json u has_audit c body)
  unfolding Cars.update CarService.update CarService.find_by_id
  update_car_handler-keeps body = search cars depth 40

  pub delete_car_handler-keeps : Keeps IsCoherent (Cars.delete json u has_audit c)
  unfolding Cars.delete CarService.delete CarService.find_by_id
  delete_car_handler-keeps = search cars depth 40

any-keeps :
    (id : ℕ) (ss : List MaintenanceStatus)
    → Keeps IsCoherent (MaintenanceService.any_in_status id ss)
unfolding MaintenanceService.any_in_status
any-keeps id [] = keeps_pure false
any-keeps id (s ∷ ss) =
    keeps_bind (keeps_call _ (list_maintenances-keeps _))
      (λ r. keeps_if (ltb 0 r.total) (keeps_pure true) (any-keeps id ss))

sync-keeps : (id : ℕ) → Keeps IsCoherent (MaintenanceService.sync_car_status id)
unfolding MaintenanceService.sync_car_status MaintenanceService.has_active_maintenance
sync-keeps id = search (chain, any-keeps, find_car-keeps, update_car-keeps) depth 40

ruleset maintenances = (
  chain, audit-keeps, sync-keeps, find_car-keeps, create_maintenance-keeps,
  update_maintenance-keeps, delete_maintenance-keeps, find_maintenance-keeps,
  list_maintenances-keeps,
)

module _ (json : Json) (u : Unicode) (has_audit : Bool) (c : Context) where
  pub create_maintenance_handler-keeps :
      (body : Outcome BindError MaintenanceInput)
      → Keeps IsCoherent (Maintenance.create json u has_audit c body)
  unfolding Maintenance.create MaintenanceService.create
  create_maintenance_handler-keeps body = search maintenances depth 40

  pub update_maintenance_handler-keeps :
      (body : Outcome BindError MaintenanceInput)
      → Keeps IsCoherent (Maintenance.update json u has_audit c body)
  unfolding Maintenance.update MaintenanceService.update MaintenanceService.find_by_id
  update_maintenance_handler-keeps body = search maintenances depth 40

  pub delete_maintenance_handler-keeps : Keeps IsCoherent (Maintenance.delete json u has_audit c)
  unfolding Maintenance.delete MaintenanceService.delete MaintenanceService.find_by_id
  delete_maintenance_handler-keeps = search maintenances depth 40

ruleset reads = (
  chain, find_rental-keeps, find_car-keeps, is_available-keeps, list_by_user-keeps,
  calendar_ranges-keeps, maintenance_ranges-keeps, list_rentals-keeps, list_cars-keeps,
  list_maintenances-keeps, list_audits-keeps, list_notifications-keeps, count_unread-keeps,
  report-keeps, read_notification-keeps,
)

module _ (c : Context) where
  pub availability-keeps : Keeps IsCoherent (Rentals.availability c)
  unfolding Rentals.availability check_availability
  availability-keeps = search reads depth 40

  pub calendar-keeps : Keeps IsCoherent (Rentals.calendar c)
  unfolding Rentals.calendar availability_calendar month_calendar
  calendar-keeps = search reads depth 40

  pub my_rentals-keeps : Keeps IsCoherent (Rentals.my_rentals c)
  unfolding Rentals.my_rentals RentalListing.list_by_user_id
  my_rentals-keeps = search reads depth 40

  pub get_rental-keeps : Keeps IsCoherent (Rentals.get_by_id c)
  unfolding Rentals.get_by_id RentalService.find_by_id
  get_rental-keeps = search reads depth 40

  pub list_all-keeps : Keeps IsCoherent (Rentals.list_all c)
  unfolding Rentals.list_all Rentals.parse_rental_list_input RentalListing.list_all
  list_all-keeps = search reads depth 40

  pub list_available-keeps :
      (fold : Char → Char) (parse : RateParser) → Keeps IsCoherent (Cars.list fold parse c)
  unfolding Cars.list Cars.parse_car_list_input CarService.list
  list_available-keeps fold parse = search reads depth 40

  pub list_admin-keeps :
      (fold : Char → Char) (parse : RateParser) → Keeps IsCoherent (Cars.list_admin fold parse c)
  unfolding Cars.list_admin Cars.parse_car_list_input CarService.list
  list_admin-keeps fold parse = search reads depth 40

  pub get_car-keeps : Keeps IsCoherent (Cars.get_by_id c)
  unfolding Cars.get_by_id Cars.find_car_by_id CarService.find_by_id
  get_car-keeps = search reads depth 40

  pub get_admin_car-keeps : Keeps IsCoherent (Cars.get_admin_by_id c)
  unfolding Cars.get_admin_by_id Cars.find_car_by_id CarService.find_by_id
  get_admin_car-keeps = search reads depth 40

  pub maintenances-keeps : Keeps IsCoherent (Maintenance.list c)
  unfolding Maintenance.list MaintenanceService.list
  maintenances-keeps = search reads depth 40

  pub notifications-keeps : Keeps IsCoherent (Notices.list c)
  unfolding Notices.list
  notifications-keeps = search reads depth 40

  pub unread-keeps : Keeps IsCoherent (Notices.unread c)
  unfolding Notices.unread
  unread-keeps = search reads depth 40

  pub mark_read-keeps : Keeps IsCoherent (Notices.mark_read c)
  unfolding Notices.mark_read
  mark_read-keeps = search reads depth 40

  pub audits-keeps : Keeps IsCoherent (Notices.list_audits c)
  unfolding Notices.list_audits
  audits-keeps = search reads depth 40

  pub reports-keeps : Keeps IsCoherent (Reports.summary c)
  unfolding Reports.summary ReportService.summary
  reports-keeps = search reads depth 40
