-- ===== src/Web/Serving/Listings.antt =====
-- The listings of the repositories, and the tables of rentals and payments.
use Prim.Native.Char.{Char}
use rentcar_backend.Base.{ℕ, Bool, ◌≡◌, ok, arith}
use rentcar_backend.Listing.{page_rows}
use rentcar_backend.Store.{Database, Statement, exec, attempt, call, pure, ◌>>=◌}
use rentcar_backend.Store.Calm.{Keeps, keeps_bind, keeps_call, keeps_pure, keeps_exec}
use rentcar_backend.Coherence.{IsCoherent}
use rentcar_backend.Rentals.Listings as Listings
use rentcar_backend.Rentals.Filtered as Filtered
use rentcar_backend.Rentals.Filtered.{RentalListFilter}
use rentcar_backend.Cars.Listing as Cars
use rentcar_backend.Cars.Listing.{CarListFilter}
use rentcar_backend.Users.Listing as Users
use rentcar_backend.Users.Listing.{UserListFilter}
use rentcar_backend.Maintenance.Repository as Maintenance
use rentcar_backend.Maintenance.Repository.{Filter}
use rentcar_backend.Notices.Notifications as Notifications
use rentcar_backend.Notices.Audits as Audits
use rentcar_backend.Notices.Audits.{AuditListFilter}
use rentcar_backend.Reports.Repository as Reports
use rentcar_backend.Web.Serving.Others.{keeps_Untouched}

exec_reads :
    {A : Type 0} (s : Statement A)
    → ((db db' : Database) (a : A) → s db ≡ ok (a, db') → db' ≡ db)
    → Keeps IsCoherent (exec s)
exec_reads s same = keeps_exec s (λ db db' a h e. rw (same db db' a e) h)

-- Two queries outside a transaction, the second after other requests.
two_reads :
    {A B C : Type 0} (s : Statement A) (t : A → Statement B) (f : A → B → C)
    → ((db db' : Database) (a : A) → s db ≡ ok (a, db') → db' ≡ db)
    → ((a : A) (db db' : Database) (b : B) → t a db ≡ ok (b, db') → db' ≡ db)
    → Keeps IsCoherent (exec s >>= λ a. call (exec (t a)) >>= λ b. pure (f a b))
two_reads s t f same same' = keeps_bind (exec_reads s same) (λ a.
    keeps_bind (keeps_call (exec (t a)) (exec_reads (t a) (same' a))) (λ b. keeps_pure (f a b)))

pub list_by_user-keeps : (id : ℕ) → Keeps IsCoherent (Listings.list_by_user_id id)
unfolding Listings.list_by_user_id exec attempt
list_by_user-keeps id =
    keeps_Untouched (Listings.list_by_user_id id)
      (record { tables = λ w. ground arith; others = λ w. ground arith })

pub calendar_ranges-keeps :
    (car start end : ℕ) → Keeps IsCoherent (Listings.list_calendar_ranges car start end)
unfolding Listings.list_calendar_ranges exec attempt
calendar_ranges-keeps car start end =
    keeps_Untouched (Listings.list_calendar_ranges car start end)
      (record { tables = λ w. ground arith; others = λ w. ground arith })

pub maintenance_ranges-keeps :
    (car start end : ℕ) → Keeps IsCoherent (Listings.list_maintenance_ranges car start end)
unfolding Listings.list_maintenance_ranges exec attempt
maintenance_ranges-keeps car start end =
    keeps_Untouched (Listings.list_maintenance_ranges car start end)
      (record { tables = λ w. ground arith; others = λ w. ground arith })

pub list_rentals-keeps : (f : RentalListFilter) → Keeps IsCoherent (Filtered.list_all f)
unfolding Filtered.list_all page_rows
list_rentals-keeps f = two_reads _ _ _ (λ db db' a e. ground arith) (λ a db db' b e. ground arith)

pub list_cars-keeps : (fold : Char → Char) (f : CarListFilter) → Keeps IsCoherent (Cars.list fold f)
unfolding Cars.list page_rows
list_cars-keeps fold f = two_reads _ _ _ (λ db db' a e. ground arith) (λ a db db' b e. ground arith)

pub list_users-keeps :
    (fold : Char → Char) (f : UserListFilter) → Keeps IsCoherent (Users.list fold f)
unfolding Users.list page_rows
list_users-keeps fold f =
    two_reads _ _ _ (λ db db' a e. ground arith) (λ a db db' b e. ground arith)

pub list_maintenances-keeps : (f : Filter) → Keeps IsCoherent (Maintenance.list f)
unfolding Maintenance.list page_rows
list_maintenances-keeps f =
    two_reads _ _ _ (λ db db' a e. ground arith) (λ a db db' b e. ground arith)

pub list_audits-keeps : (f : AuditListFilter) → Keeps IsCoherent (Audits.list f)
unfolding Audits.list page_rows
list_audits-keeps f = two_reads _ _ _ (λ db db' a e. ground arith) (λ a db db' b e. ground arith)

pub list_notifications-keeps :
    (user : ℕ) (b : Bool) → Keeps IsCoherent (Notifications.list_by_user_id user b)
unfolding Notifications.list_by_user_id exec attempt
list_notifications-keeps user b =
    keeps_Untouched (Notifications.list_by_user_id user b)
      (record { tables = λ w. ground arith; others = λ w. ground arith })

pub count_unread-keeps : (user : ℕ) → Keeps IsCoherent (Notifications.count_unread_by_user_id user)
unfolding Notifications.count_unread_by_user_id exec attempt
count_unread-keeps user =
    keeps_Untouched (Notifications.count_unread_by_user_id user)
      (record { tables = λ w. ground arith; others = λ w. ground arith })

pub report-keeps : (start end : ℕ) → Keeps IsCoherent (Reports.summary start end)
unfolding Reports.summary Reports.totals Reports.top_cars
report-keeps start end = two_reads _ _ _ (λ db db' a e. ground arith) (λ a db db' b e. ground arith)
