-- ===== src/Web/Notices.antt =====
-- internal/handler/notification_handler.go and internal/handler/audit_handler.go.
use rentcar_backend.Base.{◌==◌, string_eq, List}
use rentcar_backend.AppError.{new}
use rentcar_backend.Models.{Notification}
use rentcar_backend.Store.{Action, pure, ◌>>=◌, ◌>>◌}
use rentcar_backend.Rentals.Service.Handlers.{lift}
use rentcar_backend.Notices.Audits.{AuditListResult, list_logs}
use rentcar_backend.Notices.Notifications.{list_notifications, count_unread, mark_notification_read}
use rentcar_backend.Text.Decimal.{decimal}
use rentcar_backend.Web.Json.{Fields, number, end, field}
use rentcar_backend.Web.Params.{user_id, optional, or_error, parse_id}
use rentcar_backend.Web.Rentals.{flag}
use rentcar_backend.Web.Replies.{Context, Reply, ok_reply}

-- `List` of `NotificationHandler`
unfoldable pub list : Context → Action (Reply (List Notification))
list c = do
  user ← user_id c
  items ← list_notifications user (c.query "unread" == "true")
  pure (ok_reply items)

-- `CountUnread`
unfoldable pub unread : Context → Action (Reply Fields)
unread c = do
  user ← user_id c
  n ← count_unread user
  pure (ok_reply (field "count" (number (decimal 1 n)) end))

-- `MarkRead`
unfoldable pub mark_read : Context → Action (Reply Fields)
mark_read c = do
  user ← user_id c
  id ← lift (or_error (new 400 "invalid notification id") (parse_id (c.param "id")))
  mark_notification_read id user
  pure (ok_reply (flag "read"))

-- `List` of `AuditHandler`
unfoldable pub list_audits : Context → Action (Reply AuditListResult)
list_audits c = do
  actor ← optional c "actor_id" "invalid actor_id"
  page ← optional c "page" "invalid page"
  page_size ← optional c "page_size" "invalid page_size"
  items ← list_logs (record {
    actor_id = actor;
    entity_type = c.query "entity_type";
    page = page;
    page_size = page_size;
  })
  pure (ok_reply items)
