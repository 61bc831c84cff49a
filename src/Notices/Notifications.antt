-- ===== src/Notices/Notifications.antt =====
-- internal/repository/notification_repository.go and internal/service/notification_service.go.
use rentcar_backend.Base.{
  ℕ, suc, ◌==◌, nat_eq, string_eq, if◌then◌else◌, Bool, true, false, not, ◌&&◌, ◌||◌, String, List,
  ◌∷◌, Option, none, some, ok, count, update, select,
}
use rentcar_backend.Models.{Notification, NotificationType, info}
use rentcar_backend.Listing.{take, sort_desc}
use rentcar_backend.Store.{Database, Action, ◌>>=◌, pure, gets, exec, call, Statement}
use rentcar_backend.Store.Constraints.{
  refuse_if, find_user, is_some, check_violation, foreign_key_violation,
}
use rentcar_backend.Rentals.Repository.{affects_row}

abbrev default_kind : NotificationType → NotificationType
default_kind (NotificationType.other s) = if s == "" then info else NotificationType.other s
default_kind k = k

abbrev is_kind : NotificationType → Bool
is_kind (NotificationType.other _) = false
is_kind _ = true

-- The user that a notification names is there.
abbrev names_user : Option ℕ → Database → Bool
names_user none db = true
names_user (some id) db = is_some (find_user id db)

-- `INSERT INTO notifications … RETURNING id, created_at`, under migration 013
unfoldable pub insert_notification : Notification → ℕ → Statement Notification
insert_notification n now db =
    let row : Notification = record n {
      id = db.next_notification;
      read_at = none;
      created_at = now;
    } in
    refuse_if (not (is_kind n.kind)) (check_violation "notifications_type_check") (
      refuse_if (not (names_user n.user_id db)) (foreign_key_violation "notifications_user_id_fkey")
        (ok (
          record n { id = db.next_notification; created_at = now },
          record db {
            notifications = row ∷ db.notifications;
            next_notification = suc db.next_notification;
          },
        )))

-- `Create`
unfoldable pub create : Notification → Action Notification
create n = do
  now ← gets (λ w. w.now)
  exec (insert_notification (record n { kind = default_kind n.kind }) now)

-- `user_id = $1 OR user_id IS NULL`
abbrev pub is_for : ℕ → Notification → Bool
is_for user n = elim n.user_id [ none ↦ true | some id ↦ id == user ]

abbrev pub is_unread : Notification → Bool
is_unread n = elim n.read_at [ none ↦ true | some _ ↦ false ]

abbrev pub is_shown : ℕ → Bool → Notification → Bool
is_shown user unread_only n = is_for user n && (not unread_only || is_unread n)

-- `ListByUserID`, `ORDER BY created_at DESC LIMIT 50`
unfoldable pub list_by_user_id : ℕ → Bool → Action (List Notification)
list_by_user_id user unread_only = exec (λ db. ok (
  take 50 (sort_desc (λ n. n.created_at) (select (is_shown user unread_only) db.notifications)),
  db,
))

-- `CountUnreadByUserID`
unfoldable pub count_unread_by_user_id : ℕ → Action ℕ
count_unread_by_user_id user = exec (λ db. ok (count (is_shown user true) db.notifications, db))

abbrev pub is_own : ℕ → ℕ → Notification → Bool
is_own id user n = n.id == id && is_for user n

abbrev pub read_now : ℕ → Notification → Notification
read_now now n = record n { read_at = some now }

unfoldable pub mark_rows : ℕ → ℕ → ℕ → Statement ℕ
mark_rows id user now db = ok (
  count (is_own id user) db.notifications,
  record db { notifications = update (is_own id user) (read_now now) db.notifications },
)

-- `MarkRead`
unfoldable pub mark_read : ℕ → ℕ → Action (Unit {0})
mark_read id user = do
  now ← gets (λ w. w.now)
  affected ← exec (mark_rows id user now)
  affects_row affected

-- `NotificationInput`
pub record NotificationInput : Type 0 where
  pub user_id : Option ℕ
  pub title : String
  pub message : String
  pub kind : NotificationType

-- The methods of `NotificationService`: `Create`, `List`, `CountUnread` and `MarkRead`
unfoldable pub create_notification : NotificationInput → Action (Unit {0})
create_notification input = do
  n ← call (
      create (record {
        id = 0;
        user_id = input.user_id;
        title = input.title;
        message = input.message;
        kind = input.kind;
        read_at = none;
        created_at = 0;
      }))
  pure tt

abbrev pub list_notifications : ℕ → Bool → Action (List Notification)
list_notifications user unread_only = call (list_by_user_id user unread_only)

abbrev pub count_unread : ℕ → Action ℕ
count_unread user = call (count_unread_by_user_id user)

abbrev pub mark_notification_read : ℕ → ℕ → Action (Unit {0})
mark_notification_read id user = call (mark_read id user)
