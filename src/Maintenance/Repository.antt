-- ===== src/Maintenance/Repository.antt =====
-- internal/repository/maintenance_repository.go.
use mathlib.Core.Option
use rentcar_backend.Base.{
  ℕ, suc, ◌==◌, nat_eq, string_eq, if◌then◌else◌, Bool, true, not, ◌&&◌, ◌||◌, leb, ltb, ◌∷◌,
  Option, none, some, Outcome, ok, err, find, count, update, select, List,
}
use rentcar_backend.AppError.{Cause, base, not_found}
use rentcar_backend.Models.{CarMaintenance, MaintenanceStatus, scheduled, maintenance_status_eq}
use rentcar_backend.Listing.{sort_desc, normal_page, normal_size, page_rows, total_pages}
use rentcar_backend.Store.{Database, Action, pure, ◌>>=◌, require, gets, exec, call, Statement}
use rentcar_backend.Store.Constraints.{
  one_row, refuse_if, find_car, find_user, is_some, is_maintenance_status, is_disjoint_maintenance,
  check_violation, exclusion_violation, foreign_key_violation,
}
use rentcar_backend.Rentals.Repository.{when}

abbrev default_status : MaintenanceStatus → MaintenanceStatus
default_status s = if s == MaintenanceStatus.other "" then scheduled else s

-- The checks of migration 012 on one row and on the table that it makes.
maintenance_checks :
    {A : Type 0}
    → CarMaintenance
    → List CarMaintenance
    → Database
    → Outcome Cause A
    → Outcome Cause A
maintenance_checks m rows db rest =
    refuse_if (not (leb m.start_date m.end_date)) (check_violation "car_maintenances_date_check") (
      refuse_if (not (is_maintenance_status m.status))
        (check_violation "car_maintenances_status_check")
        (refuse_if (not (is_disjoint_maintenance rows))
          (exclusion_violation "car_maintenances_no_overlap")
          (refuse_if (not (is_some (find_car m.car_id db)))
            (foreign_key_violation "car_maintenances_car_id_fkey") rest)))

-- A user that is named exists.
abbrev actor_known : Option ℕ → Database → Bool
actor_known none db = true
actor_known (some u) db = is_some (find_user u db)

abbrev pub inserted : CarMaintenance → ℕ → Database → CarMaintenance
inserted m now db = record m { id = db.next_maintenance; created_at = now; updated_at = now }

-- `INSERT INTO car_maintenances … RETURNING id, created_at, updated_at`
insert_maintenance : CarMaintenance → ℕ → Statement CarMaintenance
unfolding maintenance_checks
insert_maintenance m now db =
    let row = inserted m now db in
    maintenance_checks m (row ∷ db.maintenances) db (
      refuse_if (not (actor_known m.created_by db))
        (foreign_key_violation "car_maintenances_created_by_fkey")
        (ok (
          row,
          record db {
            maintenances = row ∷ db.maintenances;
            next_maintenance = suc db.next_maintenance;
          },
        )))

-- `Create`
unfoldable pub create : CarMaintenance → Action CarMaintenance
unfolding insert_maintenance
create item = do
  now ← gets (λ w. w.now)
  exec (insert_maintenance (record item { status = default_status item.status }) now)

abbrev pub find_maintenance : ℕ → Database → Option CarMaintenance
find_maintenance id db = find (λ m. m.id == id) db.maintenances

-- `UPDATE car_maintenances SET …`: who created it and when are kept.
abbrev pub updated : CarMaintenance → ℕ → CarMaintenance → CarMaintenance
updated m now old = record m {
  created_by = old.created_by;
  created_at = old.created_at;
  updated_at = now;
}

update_maintenance : CarMaintenance → ℕ → Statement CarMaintenance
unfolding maintenance_checks
update_maintenance m now db =
    let rows = update (λ x. x.id == m.id) (updated m now) db.maintenances in
    elim (find_maintenance m.id db) [
      | none ↦ one_row none
      | some old ↦
          maintenance_checks m rows db (ok (updated m now old, record db { maintenances = rows }))
    ]

-- `Update`
unfoldable pub update_by_id : CarMaintenance → Action CarMaintenance
unfolding update_maintenance
update_by_id item = do now ← gets (λ w. w.now); exec (update_maintenance item now)

delete_maintenance : ℕ → Statement ℕ
delete_maintenance id db = ok (
  count (λ m. m.id == id) db.maintenances,
  record db { maintenances = select (λ m. not (m.id == id)) db.maintenances },
)

-- `Delete`
unfoldable pub delete : ℕ → Action (Unit {0})
unfolding delete_maintenance
delete id = do
  affected ← exec (delete_maintenance id)
  require (when (affected == 0) (base not_found))

-- `FindByID`
unfoldable pub find_by_id : ℕ → Action CarMaintenance
find_by_id id = exec (λ db. one_row (Option.map (λ m. (m, db)) (find_maintenance id db)))

-- `MaintenanceListFilter` and `MaintenanceListResult`; a status of "" asks for every status.
pub record Filter : Type 0 where
  pub car_id : ℕ
  pub status : MaintenanceStatus
  pub page : ℕ
  pub page_size : ℕ

pub record ListResult : Type 0 where
  pub items : List CarMaintenance
  pub total : ℕ
  pub page : ℕ
  pub page_size : ℕ
  pub total_pages : ℕ

-- `normalizeMaintenanceListFilter`
abbrev pub normalize : Filter → Filter
normalize f = record f { page = normal_page f.page; page_size = normal_size 20 f.page_size }

-- `buildMaintenanceWhere`, as the test that its text states
abbrev pub matches : Filter → CarMaintenance → Bool
matches f m =
    (not (ltb 0 f.car_id) || m.car_id == f.car_id)
    && (f.status == MaintenanceStatus.other "" || m.status == f.status)

count_matches : Filter → Statement ℕ
count_matches f db = ok (count (matches f) db.maintenances, db)

-- `ORDER BY start_date DESC, id DESC`; the table lists its rows by falling identifier.
select_page : Filter → Statement (List CarMaintenance)
select_page f db =
    elim (page_rows f.page f.page_size
      (sort_desc (λ m. m.start_date) (select (matches f) db.maintenances))) [
        | ok rows ↦ ok (rows, db)
        | err c ↦ err c
      ]

-- `List`
unfoldable pub list : Filter → Action ListResult
unfolding count_matches select_page page_rows
list filter = do
  let f = normalize filter
  total ← exec (count_matches f)
  items ← call (exec (select_page f))
  pure (record {
    items = items;
    total = total;
    page = f.page;
    page_size = f.page_size;
    total_pages = total_pages total f.page_size;
  })
