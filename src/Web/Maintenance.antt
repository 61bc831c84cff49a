-- ===== src/Web/Maintenance.antt =====
-- internal/handler/maintenance_handler.go.
use rentcar_backend.Base.{ℕ, Bool, String, Option, none, some, Outcome}
use rentcar_backend.Models.{CarMaintenance}
use rentcar_backend.Models.Texts.{maintenance_status_of}
use rentcar_backend.Text.{Unicode}
use rentcar_backend.Store.{Action, pure, ◌>>=◌, ◌>>◌}
use rentcar_backend.Maintenance.Repository.{ListResult}
use rentcar_backend.Maintenance.Service as Service
use rentcar_backend.Maintenance.Service.{MaintenanceInput}
use rentcar_backend.Notices.Audits.{Json}
use rentcar_backend.Web.Json.{Fields}
use rentcar_backend.Web.Encoded.{maintenance_fields}
use rentcar_backend.Web.Params.{id_param, optional}
use rentcar_backend.Web.Rentals.{flag}
use rentcar_backend.Web.Replies.{Context, Reply, ok_reply, created_reply}
use rentcar_backend.Web.Trail.{actor_id_value, audit, audit_metadata}
use rentcar_backend.Web.Validator.{BindError, bound}

-- `List`
unfoldable pub list : Context → Action (Reply ListResult)
list c = do
  car ← optional c "car_id" "invalid car_id"
  page ← optional c "page" "invalid page"
  page_size ← optional c "page_size" "invalid page_size"
  found ← Service.list (record {
    car_id = car;
    status = maintenance_status_of (c.query "status");
    page = page;
    page_size = page_size;
  })
  pure (ok_reply found)

-- `has_audit` says whether `NewMaintenanceHandler` was given a service of audits.
module _ (json : Json) (u : Unicode) (has_audit : Bool) (c : Context) where
  abbrev log : String → ℕ → Option CarMaintenance → Option CarMaintenance → Action (Unit {0})
  log action id before after = audit json has_audit c action "maintenance" id (
      audit_metadata (elim before [ none ↦ none | some b ↦ some (maintenance_fields b) ])
        (elim after [ none ↦ none | some a ↦ some (maintenance_fields a) ]))

  -- `Create`
  unfoldable pub create : Outcome BindError MaintenanceInput → Action (Reply CarMaintenance)
  create body = do
    input ← bound u body
    item ← Service.create (actor_id_value c) input
    log "maintenance.created" item.id none (some item)
    pure (created_reply item)

  -- `Update`
  unfoldable pub update : Outcome BindError MaintenanceInput → Action (Reply CarMaintenance)
  update body = do
    id ← id_param c
    before ← Service.find_by_id id
    input ← bound u body
    item ← Service.update id input
    log "maintenance.updated" id (some before) (some item)
    pure (ok_reply item)

  -- `Delete`
  unfoldable pub delete : Action (Reply Fields)
  delete = do
    id ← id_param c
    before ← Service.find_by_id id
    Service.delete id
    log "maintenance.deleted" id (some before) none
    pure (ok_reply (flag "deleted"))
