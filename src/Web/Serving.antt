-- ===== src/Web/Serving.antt =====
-- The routes of internal/router/router.go in front of the handlers, and requests that are served one after another.
pub mod Quiet
pub mod Services
pub mod Others
pub mod Listings
pub mod Handlers
pub mod Fleet
pub mod Accounts
pub mod Coherent
pub mod Guarded
use rentcar_backend.Base.{ℕ, String, Bool, List, [], ◌∷◌, Option, none, some, Outcome, ok, err}
use rentcar_backend.AppError.{Cause, Error}
use rentcar_backend.Models.{RentalStatus, UserRole}
use rentcar_backend.Store.{Database, World, Action, pure, ◌>>=◌}
use rentcar_backend.Rentals.Lifecycle.{sync_lifecycle}
use rentcar_backend.Rentals.Service.Handlers.{RentalInput}
use rentcar_backend.Payments.Service.{PaymentInput}
use rentcar_backend.Cars.Service.{CarInput}
use rentcar_backend.Maintenance.Service.{MaintenanceInput}
use rentcar_backend.Notices.Audits.{Json}
use rentcar_backend.Users.Inputs.{Settings, RegisterInput, ProfileInput}
use rentcar_backend.Users.Platform.{Platform, Draw}
use rentcar_backend.Middleware.Access.{Caller, PermissionChecker, require_auth}
use rentcar_backend.Middleware.Routes.{enter}
use rentcar_backend.Web.Rentals as Rentals
use rentcar_backend.Web.Rentals.{RentalHandler}
use rentcar_backend.Web.Payments as Payments
use rentcar_backend.Web.Payments.{PaymentHandler}
use rentcar_backend.Web.Cars as Cars
use rentcar_backend.Web.Cars.{RateParser}
use rentcar_backend.Web.Maintenance as Maintenance
use rentcar_backend.Web.Notices as Notices
use rentcar_backend.Web.Reports as Reports
use rentcar_backend.Web.Users as Users
use rentcar_backend.Web.Replies.{Context, Reply, Response, sent, refused, respond, from_error}
use rentcar_backend.Web.Validator.{BindError}

-- A request to a route whose handler reads or writes the tables, with its body as the binding reads it, and what
-- the handler draws at random.
pub data Request : Type 0 where
  register : Draw → Outcome BindError RegisterInput → Request
  verify_email : Draw → Outcome BindError (String × String) → Request
  resend_verification : Draw → Outcome BindError String → Request
  login : Draw → Outcome BindError (String × String) → Request
  refresh : Draw → Option (Outcome BindError String) → Request
  logout : Option (Outcome BindError String) → Request
  availability calendar list_cars get_car : Request
  me : Request
  update_profile : Outcome BindError ProfileInput → Request
  logout_all list_notifications count_unread mark_read : Request
  create_rental : Outcome BindError RentalInput → Request
  my_rentals get_rental get_invoice cancel_rental : Request
  create_payment : Outcome BindError PaymentInput → Request
  list_admin_cars get_admin_car : Request
  create_car : Outcome BindError CarInput → Request
  update_car : Outcome BindError CarInput → Request
  delete_car list_rentals approve_rental reject_rental : Request
  update_rental_status : Outcome BindError RentalStatus → Request
  confirm_payment fail_payment refund_payment list_maintenances : Request
  create_maintenance : Outcome BindError MaintenanceInput → Request
  update_maintenance : Outcome BindError MaintenanceInput → Request
  delete_maintenance report list_audits list_users : Request
  update_role : Outcome BindError UserRole → Request

-- The group that a route stands in: none, that of `RequireAuth`, or the administration, with its permission.
pub data Access : Type 0 where
  public signed_in : Access
  administration : String → Access

unfoldable pub access_of : Request → Access
access_of (register _ _) = public
access_of (verify_email _ _) = public
access_of (resend_verification _ _) = public
access_of (login _ _) = public
access_of (refresh _ _) = public
access_of (logout _) = public
access_of availability = public
access_of calendar = public
access_of list_cars = public
access_of get_car = public
access_of me = signed_in
access_of (update_profile _) = signed_in
access_of logout_all = signed_in
access_of list_notifications = signed_in
access_of count_unread = signed_in
access_of mark_read = signed_in
access_of (create_rental _) = signed_in
access_of my_rentals = signed_in
access_of get_rental = signed_in
access_of get_invoice = signed_in
access_of cancel_rental = signed_in
access_of (create_payment _) = signed_in
access_of list_admin_cars = administration "cars:manage"
access_of get_admin_car = administration "cars:manage"
access_of (create_car _) = administration "cars:manage"
access_of (update_car _) = administration "cars:manage"
access_of delete_car = administration "cars:manage"
access_of list_rentals = administration "rentals:manage"
access_of approve_rental = administration "rentals:manage"
access_of reject_rental = administration "rentals:manage"
access_of (update_rental_status _) = administration "rentals:manage"
access_of confirm_payment = administration "payments:manage"
access_of fail_payment = administration "payments:manage"
access_of refund_payment = administration "payments:manage"
access_of list_maintenances = administration "maintenance:manage"
access_of (create_maintenance _) = administration "maintenance:manage"
access_of (update_maintenance _) = administration "maintenance:manage"
access_of delete_maintenance = administration "maintenance:manage"
access_of report = administration "reports:view"
access_of list_audits = administration "audit:view"
access_of list_users = administration "users:view"
access_of (update_role _) = administration "users:manage"

-- What the handlers of a server share: the settings, the services that they were given, and what is outside.
pub record Server : Type 0 where
  pub platform : Platform
  pub settings : Settings
  pub json : Json
  pub rates : RateParser
  pub checker : Option PermissionChecker
  pub rentals : RentalHandler
  pub payments : PaymentHandler
  pub car_audits : Bool
  pub maintenance_audits : Bool
  pub user_audits : Bool

abbrev pub identified : Outcome Error Caller → Outcome Error (Option Caller)
identified (ok c) = ok (some c)
identified (err e) = err e

-- The guards in front of a handler, and the caller that they put into the context.
unfoldable pub gate : Server → Access → ℕ → String → Outcome Error (Option Caller)
gate s public now header = ok none
gate s signed_in now header = identified (require_auth s.platform s.settings.jwt_secret now header)
gate s (administration permission) now header =
    identified (enter s.platform s.settings.jwt_secret s.checker permission now header)

abbrev status_of : {A : Type 0} → Response A → ℕ
status_of (sent r) = r.status
status_of (refused status text id) = status

-- A handler's answer, as its status alone.
abbrev pub answer : {A : Type 0} → Context → Action (Reply A) → World → ℕ × World
answer c m w = (status_of (respond c m w).0, (respond c m w).1)

module _ (s : Server) (c : Context) where
  -- The handler of each route.
  unfoldable pub handle : Request → World → ℕ × World
  handle (register d body) = answer c (Users.register s.platform s.settings c d body)
  handle (verify_email d body) = answer c (Users.verify_email s.platform s.settings c d body)
  handle (resend_verification d body) =
      answer c (Users.resend_email_verification s.platform s.settings c d body)
  handle (login d body) = answer c (Users.login s.platform s.settings c d body)
  handle (refresh d body) = answer c (Users.refresh s.platform s.settings c d body)
  handle (logout body) = answer c (Users.logout s.platform s.settings c body)
  handle availability = answer c (Rentals.availability c)
  handle calendar = answer c (Rentals.calendar c)
  handle list_cars = answer c (Cars.list s.platform.fold s.rates c)
  handle get_car = answer c (Cars.get_by_id c)
  handle me = answer c (Users.me c)
  handle (update_profile body) = answer c (Users.update_profile s.platform s.settings c body)
  handle logout_all = answer c (Users.logout_all c)
  handle list_notifications = answer c (Notices.list c)
  handle count_unread = answer c (Notices.unread c)
  handle mark_read = answer c (Notices.mark_read c)
  handle (create_rental body) = answer c (Rentals.create s.json s.platform.unicode s.rentals c body)
  handle my_rentals = answer c (Rentals.my_rentals c)
  handle get_rental = answer c (Rentals.get_by_id c)
  handle get_invoice = answer c (Payments.get_by_rental c)
  handle cancel_rental = answer c (Rentals.cancel s.json s.platform.unicode s.rentals c)
  handle (create_payment body) =
      answer c (Payments.create s.json s.platform.unicode s.payments c body)
  handle list_admin_cars = answer c (Cars.list_admin s.platform.fold s.rates c)
  handle get_admin_car = answer c (Cars.get_admin_by_id c)
  handle (create_car body) = answer c (Cars.create s.json s.platform.unicode s.car_audits c body)
  handle (update_car body) = answer c (Cars.update s.json s.platform.unicode s.car_audits c body)
  handle delete_car = answer c (Cars.delete s.json s.platform.unicode s.car_audits c)
  handle list_rentals = answer c (Rentals.list_all c)
  handle approve_rental = answer c (Rentals.approve s.json s.platform.unicode s.rentals c)
  handle reject_rental = answer c (Rentals.reject s.json s.platform.unicode s.rentals c)
  handle (update_rental_status body) =
      answer c (Rentals.update_status s.json s.platform.unicode s.rentals c body)
  handle confirm_payment = answer c (Payments.confirm s.json s.platform.unicode s.payments c)
  handle fail_payment = answer c (Payments.fail_payment s.json s.platform.unicode s.payments c)
  handle refund_payment = answer c (Payments.refund s.json s.platform.unicode s.payments c)
  handle list_maintenances = answer c (Maintenance.list c)
  handle (create_maintenance body) =
      answer c (Maintenance.create s.json s.platform.unicode s.maintenance_audits c body)
  handle (update_maintenance body) =
      answer c (Maintenance.update s.json s.platform.unicode s.maintenance_audits c body)
  handle delete_maintenance =
      answer c (Maintenance.delete s.json s.platform.unicode s.maintenance_audits c)
  handle report = answer c (Reports.summary c)
  handle list_audits = answer c (Notices.list_audits c)
  handle list_users = answer c (Users.list s.platform s.settings c)
  handle (update_role body) =
      answer c (Users.update_role s.json s.platform.unicode s.user_audits c body)

abbrev refusal : Context → Error → Response (Unit {0})
refusal c e = from_error c e

abbrev pub past_gate :
    Server → Context → Request → World → Outcome Error (Option Caller) → ℕ × World
past_gate s c r w (err e) = (status_of (refusal c e), w)
past_gate s c r w (ok caller) = handle s (record c { caller = caller }) r w

-- A request with its header `Authorization`.
unfoldable pub serve : Server → Context → String → Request → World → ℕ × World
serve s c header r w = past_gate s c r w (gate s (access_of r) w.now header)

-- What comes to the server: a request, or the hour of the worker that runs SyncLifecycle.
pub data Event : Type 0 where
  request : Context → String → Request → Event
  tick : Event

-- An event at its time, with the calls of the driver that fail.
pub record Moment : Type 0 where
  pub event : Event
  pub now : ℕ
  pub faults : List (Option Cause)

abbrev pub world_at : Moment → Database → World
world_at m db = record { db = db; others = []; faults = m.faults; now = m.now }

abbrev pub react : Server → Event → World → World
react s (request c header r) w = (serve s c header r w).1
react s tick w = (sync_lifecycle w.now w).1

-- The tables after some events, one after another.
unfoldable pub run : Server → List Moment → Database → Database
run s [] db = db
run s (m ∷ ms) db = run s ms (react s m.event (world_at m db)).db
