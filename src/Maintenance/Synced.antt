-- ===== src/Maintenance/Synced.antt =====
-- The maintenances by which internal/service/maintenance_service.go sets the status of a car.
use rentcar_backend.Base.{
  ℕ, ◌==◌, nat_eq, ◌≡◌, refl, ap, sym, ◌∙◌, ◌⊎◌, Bool, true, false, ◌&&◌, ◌||◌, ltb, Outcome, ok,
  List, [], ◌∷◌, exists, count, arith, Bool-cases, inl, inr, if◌then◌else◌,
}
use rentcar_backend.AppError.{Error}
use rentcar_backend.Models.{
  MaintenanceStatus, scheduled, in_progress, CarMaintenance, maintenance_status_eq, car_status_eq,
}
use rentcar_backend.Store.{World, exec, attempt, call, Action, pure}
use rentcar_backend.Store.Inversion.{bind-ok}
use rentcar_backend.Store.Keeps.{call_alone}
use rentcar_backend.Store.Constraints.{maintenance_blocks}
use rentcar_backend.Maintenance.Repository
use rentcar_backend.Maintenance.Repository.{matches, Filter, ListResult, normalize}
use rentcar_backend.Listing.{page_rows}
use rentcar_backend.Maintenance.Service.{any_in_status, has_active_maintenance}

-- A maintenance of the car that is scheduled or in progress.
abbrev pub holds_car : ℕ → CarMaintenance → Bool
holds_car car m = m.car_id == car && maintenance_blocks m.status

-- Some row passes one of two tests.
count_either :
    (car : ℕ) (ms : List CarMaintenance)
    → ltb 0 car ≡ true
    → exists (holds_car car) ms
      ≡ ltb 0 (
          count (matches (record { car_id = car; status = scheduled; page = 1; page_size = 1 })) ms)
        || ltb 0 (
            count
              (matches (record { car_id = car; status = in_progress; page = 1; page_size = 1 }))
              ms)
count_either car [] h = refl
count_either car (m ∷ ms) h = ground (arith, count_either car ms)

list_total :
    (f : Filter) (res : ListResult) (w : World)
    → w.others ≡ []
    → (Repository.list f w).0 ≡ ok res
    → (res.total ≡ count (matches (normalize f)) w.db.maintenances)
      × ((Repository.list f w).1.db ≡ w.db)
unfolding Repository.list exec attempt page_rows call
list_total f res w alone h = (ground arith, ground arith)

list_others : (f : Filter) (w : World) → w.others ≡ [] → (Repository.list f w).1.others ≡ []
unfolding Repository.list exec attempt page_rows call
list_others f w alone = ground arith

abbrev one_of : ℕ → MaintenanceStatus → Filter
one_of car s = record { car_id = car; status = s; page = 1; page_size = 1 }

if_true : {A : Type 0} (b : Bool) (m n : Action A) → b ≡ true → (if b then m else n) ≡ m
if_true b m n h = rw h refl

if_false : {A : Type 0} (b : Bool) (m n : Action A) → b ≡ false → (if b then m else n) ≡ n
if_false b m n h = rw h refl

answer : (b : Bool) (o : Outcome Error Bool) → o ≡ ok true → o ≡ ok b → b ≡ true
answer b o e h = ground arith

answer_no : (b : Bool) (o : Outcome Error Bool) → o ≡ ok false → o ≡ ok b → b ≡ false
answer_no b o e h = ground arith

-- One turn of the loop over the statuses.
any_step :
    (car : ℕ) (s : MaintenanceStatus) (rest : List MaintenanceStatus) (b : Bool) (w : World)
    → w.others ≡ []
    → (any_in_status car (s ∷ rest) w).0 ≡ ok b
    → (v : World) × (v.others ≡ [])
      × (v.db ≡ w.db)
      × (((ltb 0 (count (matches (one_of car s)) w.db.maintenances) ≡ true)
            × (b ≡ true)
            × ((any_in_status car (s ∷ rest) w).1 ≡ v))
          ⊎ ((ltb 0 (count (matches (one_of car s)) w.db.maintenances) ≡ false)
              × ((any_in_status car rest v).0 ≡ ok b)
              × ((any_in_status car (s ∷ rest) w).1 ≡ (any_in_status car rest v).1)))
unfolding any_in_status
any_step car s rest b w alone h =
    let k : ListResult → Action Bool =
      λ result. if ltb 0 result.total then pure true else any_in_status car rest in
    let (result, run, after, final) = bind-ok (call (Repository.list (one_of car s))) k w b h in
    let v : World = (call (Repository.list (one_of car s)) w).1 in
    let same : call (Repository.list (one_of car s)) w ≡ Repository.list (one_of car s) w =
      call_alone (Repository.list (one_of car s)) w alone in
    let (total, kept) =
      list_total (one_of car s) result w alone (ap (λ r. r.0) (sym same) ∙ run.result) in
    (
      v,
      ap (λ r. r.1.others) same ∙ list_others (one_of car s) w alone,
      ap (λ r. r.1.db) same ∙ kept,
      elim (Bool-cases (ltb 0 result.total)) [
        | inl some_row ↦
            (let taken =
                if_true (ltb 0 result.total) (pure true) (any_in_status car rest) some_row in
              inl (
                ground arith,
                answer b (ok true) refl (ap (λ m. (m v).0) (sym taken) ∙ after),
                final ∙ ap (λ m. (m v).1) taken,
              ))
        | inr no_row ↦
            (let taken =
                if_false (ltb 0 result.total) (pure true) (any_in_status car rest) no_row in
              inr (
                ground arith,
                ap (λ m. (m v).0) (sym taken) ∙ after,
                final ∙ ap (λ m. (m v).1) taken,
              ))
      ],
    )

-- Where no other request commits in between, and for an identifier above 0, `hasActiveMaintenance`
-- answers, if no call fails, whether the table has a maintenance of the car that is scheduled or in
-- progress, and it changes no table.
pub has_active_maintenance_lem :
    (car : ℕ) (b : Bool) (w : World)
    → ltb 0 car ≡ true
    → w.others ≡ []
    → (has_active_maintenance car w).0 ≡ ok b
    → (b ≡ exists (holds_car car) w.db.maintenances)
      × ((has_active_maintenance car w).1.db ≡ w.db)
      × ((has_active_maintenance car w).1.others ≡ [])
unfolding has_active_maintenance any_in_status
has_active_maintenance_lem car b w known alone h =
    let either = count_either car w.db.maintenances known in
    let (v, quiet, kept, step) = any_step car scheduled (in_progress ∷ []) b w alone h in
    elim step [
      | inl (found, yes_b, left) ↦
          (ground arith, ap (λ u. u.db) left ∙ kept, ap (λ u. u.others) left ∙ quiet)
      | inr (none_scheduled, next, left) ↦
          let (u, quiet', kept', step') = any_step car in_progress [] b v quiet next in
          elim step' [
            | inl (found, yes_b, left') ↦ (
              ground arith,
              ap (λ x. x.db) (left ∙ left') ∙ kept' ∙ kept,
              ap (λ x. x.others) (left ∙ left') ∙ quiet',
            )
            | inr (none_under_way, last, left') ↦
                (let no_b : b ≡ false = answer_no b (ok false) refl last in
                  (
                    ground arith,
                    ap (λ x. x.db) (left ∙ left') ∙ kept' ∙ kept,
                    ap (λ x. x.others) (left ∙ left') ∙ quiet',
                  ))
          ]
    ]
