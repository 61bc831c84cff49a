-- ===== src/Web/Serving/Coherent.antt =====
-- The events of the server, internal/router/router.go and internal/app/app.go, and the invariant of Coherence.
use rentcar_backend.Base.{ℕ, refl, List, [], ◌∷◌, Option, Outcome, ok, err}
use rentcar_backend.AppError.{Error}
use rentcar_backend.Store.{Database, World, Action}
use rentcar_backend.Store.Calm.{Keeps, Calm}
use rentcar_backend.Middleware.Access.{Caller}
use rentcar_backend.Coherence.{IsCoherent}
use rentcar_backend.Web.Replies.{Context, Reply, respond}
use rentcar_backend.Web.Serving.{
  Request, Server, Event, Moment, request, tick, answer, handle, past_gate, gate, access_of, serve,
  react, run, world_at, register, verify_email, resend_verification, login, refresh, logout,
  availability, calendar, list_cars, get_car, me, update_profile, logout_all, list_notifications,
  count_unread, mark_read, create_rental, my_rentals, get_rental, get_invoice, cancel_rental,
  create_payment, list_admin_cars, get_admin_car, create_car, update_car, delete_car, list_rentals,
  approve_rental, reject_rental, update_rental_status, confirm_payment, fail_payment,
  refund_payment, list_maintenances, create_maintenance, update_maintenance, delete_maintenance,
  report, list_audits, list_users, update_role,
}
use rentcar_backend.Web.Serving.Services.{sync_lifecycle-keeps}
use rentcar_backend.Web.Serving.Handlers.{
  create_rental-keeps, set_rental-keeps, approve_rental-keeps, reject_rental-keeps,
  cancel_rental-keeps, create_payment-keeps, confirm_payment-keeps, fail_payment-keeps,
  refund_payment-keeps, invoice-keeps,
}
use rentcar_backend.Web.Serving.Fleet.{
  create_car_handler-keeps, update_car_handler-keeps, delete_car_handler-keeps,
  create_maintenance_handler-keeps, update_maintenance_handler-keeps,
  delete_maintenance_handler-keeps, availability-keeps, calendar-keeps, my_rentals-keeps,
  get_rental-keeps, list_all-keeps, list_available-keeps, list_admin-keeps, get_car-keeps,
  get_admin_car-keeps, maintenances-keeps, notifications-keeps, unread-keeps, mark_read-keeps,
  audits-keeps, reports-keeps,
}
use rentcar_backend.Web.Serving.Accounts.{
  register-keeps, verify_email-keeps, resend-keeps, login-keeps, refresh-keeps, logout-keeps,
  profile-keeps, users-keeps, logout_all-keeps, me-keeps, role-keeps,
}

-- What the world after a request is, as a call that answers nothing.
abbrev Serves : (World → ℕ × World) → Type 0
Serves h = (w : World) → Calm IsCoherent w → Calm IsCoherent (h w).1

answer-Serves :
    {A : Type 0} (c : Context) (m : Action (Reply A)) → Keeps IsCoherent m → Serves (answer c m)
unfolding respond
answer-Serves c m k w h = k.keep w h

module _ (s : Server) (c : Context) where
  handle-Serves : (r : Request) → Serves (handle s c r)
  unfolding handle
  handle-Serves (register d body) =
      answer-Serves c _ (register-keeps s.platform s.settings c d body)
  handle-Serves (verify_email d body) =
      answer-Serves c _ (verify_email-keeps s.platform s.settings c d body)
  handle-Serves (resend_verification d body) =
      answer-Serves c _ (resend-keeps s.platform s.settings c d body)
  handle-Serves (login d body) = answer-Serves c _ (login-keeps s.platform s.settings c d body)
  handle-Serves (refresh d body) = answer-Serves c _ (refresh-keeps s.platform s.settings c d body)
  handle-Serves (logout body) = answer-Serves c _ (logout-keeps s.platform s.settings c body)
  handle-Serves availability = answer-Serves c _ (availability-keeps c)
  handle-Serves calendar = answer-Serves c _ (calendar-keeps c)
  handle-Serves list_cars = answer-Serves c _ (list_available-keeps c s.platform.fold s.rates)
  handle-Serves get_car = answer-Serves c _ (get_car-keeps c)
  handle-Serves me = answer-Serves c _ (me-keeps c)
  handle-Serves (update_profile body) =
      answer-Serves c _ (profile-keeps s.platform s.settings c body)
  handle-Serves logout_all = answer-Serves c _ (logout_all-keeps c)
  handle-Serves list_notifications = answer-Serves c _ (notifications-keeps c)
  handle-Serves count_unread = answer-Serves c _ (unread-keeps c)
  handle-Serves mark_read = answer-Serves c _ (mark_read-keeps c)
  handle-Serves (create_rental body) =
      answer-Serves c _ (create_rental-keeps s.json s.platform.unicode s.rentals c body)
  handle-Serves my_rentals = answer-Serves c _ (my_rentals-keeps c)
  handle-Serves get_rental = answer-Serves c _ (get_rental-keeps c)
  handle-Serves get_invoice = answer-Serves c _ (invoice-keeps c)
  handle-Serves cancel_rental =
      answer-Serves c _ (cancel_rental-keeps s.json s.platform.unicode s.rentals c)
  handle-Serves (create_payment body) =
      answer-Serves c _ (create_payment-keeps s.json s.platform.unicode s.payments c body)
  handle-Serves list_admin_cars = answer-Serves c _ (list_admin-keeps c s.platform.fold s.rates)
  handle-Serves get_admin_car = answer-Serves c _ (get_admin_car-keeps c)
  handle-Serves (create_car body) =
      answer-Serves c _ (create_car_handler-keeps s.json s.platform.unicode s.car_audits c body)
  handle-Serves (update_car body) =
      answer-Serves c _ (update_car_handler-keeps s.json s.platform.unicode s.car_audits c body)
  handle-Serves delete_car =
      answer-Serves c _ (delete_car_handler-keeps s.json s.platform.unicode s.car_audits c)
  handle-Serves list_rentals = answer-Serves c _ (list_all-keeps c)
  handle-Serves approve_rental =
      answer-Serves c _ (approve_rental-keeps s.json s.platform.unicode s.rentals c)
  handle-Serves reject_rental =
      answer-Serves c _ (reject_rental-keeps s.json s.platform.unicode s.rentals c)
  handle-Serves (update_rental_status body) =
      answer-Serves c _ (set_rental-keeps s.json s.platform.unicode s.rentals c body)
  handle-Serves confirm_payment =
      answer-Serves c _ (confirm_payment-keeps s.json s.platform.unicode s.payments c)
  handle-Serves fail_payment =
      answer-Serves c _ (fail_payment-keeps s.json s.platform.unicode s.payments c)
  handle-Serves refund_payment =
      answer-Serves c _ (refund_payment-keeps s.json s.platform.unicode s.payments c)
  handle-Serves list_maintenances = answer-Serves c _ (maintenances-keeps c)
  handle-Serves (create_maintenance body) =
      answer-Serves c _
        (create_maintenance_handler-keeps s.json s.platform.unicode s.maintenance_audits c body)
  handle-Serves (update_maintenance body) =
      answer-Serves c _
        (update_maintenance_handler-keeps s.json s.platform.unicode s.maintenance_audits c body)
  handle-Serves delete_maintenance =
      answer-Serves c _
        (delete_maintenance_handler-keeps s.json s.platform.unicode s.maintenance_audits c)
  handle-Serves report = answer-Serves c _ (reports-keeps c)
  handle-Serves list_audits = answer-Serves c _ (audits-keeps c)
  handle-Serves list_users = answer-Serves c _ (users-keeps s.platform s.settings c)
  handle-Serves (update_role body) =
      answer-Serves c _ (role-keeps s.json s.platform.unicode s.user_audits c body)

past_gate-Serves :
    (s : Server) (c : Context) (r : Request) (o : Outcome Error (Option Caller))
    → (w : World) → Calm IsCoherent w
    → Calm IsCoherent (past_gate s c r w o).1
past_gate-Serves s c r (ok caller) w h = handle-Serves s (record c { caller = caller }) r w h
past_gate-Serves s c r (err e) w h = h

-- One event keeps the invariant.
react-IsCoherent :
    (s : Server) (e : Event) (w : World) → Calm IsCoherent w → Calm IsCoherent (react s e w)
unfolding serve
react-IsCoherent s (request c header r) w h =
    past_gate-Serves s c r (gate s (access_of r) w.now header) w h
react-IsCoherent s tick w h = (sync_lifecycle-keeps w.now).keep w h

-- After any requests, to whichever routes, by whomever and at whatever times, and any runs of the lifecycle worker,
-- one after another, some calls of the driver failing, the tables of rentals and payments fit if they did before.
pub run-IsCoherent :
    (s : Server) (ms : List Moment) (db : Database) → IsCoherent db → IsCoherent (run s ms db)
unfolding run
run-IsCoherent s [] db h = h
run-IsCoherent s (m ∷ ms) db h =
    run-IsCoherent s ms _ (react-IsCoherent s m.event (world_at m db) (refl, h)).1
