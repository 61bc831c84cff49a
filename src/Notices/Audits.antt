-- ===== src/Notices/Audits.antt =====
-- internal/repository/audit_repository.go and internal/service/audit_service.go.
use rentcar_backend.Base.{
  ℕ, suc, ◌==◌, nat_eq, string_eq, if◌then◌else◌, Bool, true, false, not, ◌&&◌, ◌||◌, ltb, String,
  List, ◌∷◌, Option, none, some, ok, err, count, select, map,
}
use rentcar_backend.AppError.{pg}
use rentcar_backend.Models.{AuditLog, AuditActor, User}
use rentcar_backend.Listing.{normal_page, normal_size, page_rows, total_pages, sort_desc}
use rentcar_backend.Store.{Database, Action, ◌>>=◌, pure, gets, exec, call, catch, Statement}
use rentcar_backend.Store.Constraints.{refuse_if, find_user, is_some, foreign_key_violation}

abbrev names_actor : Option ℕ → Database → Bool
names_actor none db = true
names_actor (some id) db = is_some (find_user id db)

-- How the database reads a text as JSON and writes it again, or that it is none.
abbrev pub Json : Type 0
Json = String → Option String

module _ (json : Json) where
  -- `INSERT INTO audit_logs … RETURNING id, created_at`, under migration 015
  unfoldable pub insert_audit_log : AuditLog → ℕ → Statement AuditLog
  insert_audit_log l now db = elim (json l.metadata) [
    | none ↦ err (pg "22P02" "")
    | some metadata ↦
        let row : AuditLog = record l {
          id = db.next_audit_log;
          actor = none;
          metadata = metadata;
          created_at = now;
        } in
        refuse_if (not (names_actor l.actor_id db))
          (foreign_key_violation "audit_logs_actor_id_fkey")
          (ok (
            record l { id = db.next_audit_log; created_at = now },
            record db { audit_logs = row ∷ db.audit_logs; next_audit_log = suc db.next_audit_log },
          ))
  ]

  -- `Create`
  unfoldable pub create : AuditLog → Action AuditLog
  create log = do now ← gets (λ w. w.now); exec (insert_audit_log log now)

-- `AuditListFilter` and `AuditListResult`
pub record AuditListFilter : Type 0 where
  pub actor_id : ℕ
  pub entity_type : String
  pub page : ℕ
  pub page_size : ℕ

pub record AuditListResult : Type 0 where
  pub items : List AuditLog
  pub total : ℕ
  pub page : ℕ
  pub page_size : ℕ
  pub total_pages : ℕ

-- `normalizeAuditListFilter`
abbrev pub normalize : AuditListFilter → AuditListFilter
normalize f = record f { page = normal_page f.page; page_size = normal_size 20 f.page_size }

abbrev acted_by : ℕ → Option ℕ → Bool
acted_by id none = false
acted_by id (some actor) = actor == id

-- `buildAuditWhere`, as the test that its text states
abbrev pub matches : AuditListFilter → AuditLog → Bool
matches f l =
    (not (ltb 0 f.actor_id) || acted_by f.actor_id l.actor_id)
    && (f.entity_type == "" || l.entity_type == f.entity_type)

abbrev actor_of : Option User → Option AuditActor
actor_of none = none
actor_of (some u) = some (record { id = u.id; name = u.name; email = u.email; role = u.role })

-- `LEFT JOIN users`, and `scanAuditLog`
abbrev with_actor : Database → AuditLog → AuditLog
with_actor db l = record l {
  actor = elim l.actor_id [ none ↦ none | some id ↦ actor_of (find_user id db) ];
}

count_matches : AuditListFilter → Statement ℕ
count_matches f db = ok (count (matches f) db.audit_logs, db)

-- `ORDER BY created_at DESC, id DESC`; the table lists its rows by falling identifier.
select_page : AuditListFilter → Statement (List AuditLog)
select_page f db =
    elim (page_rows f.page f.page_size
      (sort_desc (λ l. l.created_at) (select (matches f) db.audit_logs))) [
        | ok rows ↦ ok (map (with_actor db) rows, db)
        | err c ↦ err c
      ]

-- `List`
unfoldable pub list : AuditListFilter → Action AuditListResult
unfolding count_matches select_page page_rows
list filter = do
  let f = normalize filter
  total ← exec (count_matches f)
  items ← call (exec (select_page f))
  pure (record {
    items = items;
    total = total;
    page = f.page;
    page_size = f.page_size;
    total_pages = total_pages total f.page_size;
  })

-- `AuditInput`
pub record AuditInput : Type 0 where
  pub actor_id : Option ℕ
  pub action : String
  pub entity_type : String
  pub entity_id : Option ℕ
  pub metadata : String
  pub ip_address : String
  pub user_agent : String

-- The methods of `AuditService`: `Create`, whose error is dropped, and `List`
unfoldable pub create_log : Json → AuditInput → Action (Unit {0})
create_log json input = do
  r ← call (
      catch (
        create json (record {
          id = 0;
          actor_id = input.actor_id;
          actor = none;
          action = input.action;
          entity_type = input.entity_type;
          entity_id = input.entity_id;
          metadata = if input.metadata == "" then "{}" else input.metadata;
          ip_address = input.ip_address;
          user_agent = input.user_agent;
          created_at = 0;
        })))
  pure tt

abbrev pub list_logs : AuditListFilter → Action AuditListResult
list_logs filter = call (list filter)
