-- ===== src/Notices/Reading.antt =====
-- What reading a notification changes.
use rentcar_backend.Base.{
  ℕ, ◌+◌, ◌==◌, nat_eq, ◌≡◌, refl, ap, sym, ◌∙◌, true, false, ◌&&◌, List, [], ◌∷◌, ok, exists,
  count, update, DistinctBy, arith, Bool-cases, inl, inr,
}
use rentcar_backend.Models.{Notification}
use rentcar_backend.Store.{World, exec, attempt}
use rentcar_backend.Notices.Notifications.{
  mark_read, mark_rows, is_own, read_now, is_shown, is_unread, count_unread_by_user_id,
}

marked_absent :
    (id user now : ℕ) (ns : List Notification)
    → exists (λ n. n.id == id) ns ≡ false
    → count (is_shown user true) (update (is_own id user) (read_now now) ns)
      ≡ count (is_shown user true) ns
marked_absent id user now [] h = refl
marked_absent id user now (n ∷ ns) h = ground (arith, marked_absent id user now ns)

absent_own :
    (id user : ℕ) (ns : List Notification)
    → exists (λ n. n.id == id) ns ≡ false
    → exists (λ n. is_own id user n && is_unread n) ns ≡ false
absent_own id user [] h = refl
absent_own id user (n ∷ ns) h = ground (arith, absent_own id user ns)

-- One unread notification fewer, where the one with the identifier is the user's and unread.
marked_count :
    (id user now : ℕ) (ns : List Notification)
    → DistinctBy (λ n. n.id) ns
    → exists (λ n. is_own id user n && is_unread n) ns ≡ true
    → count (is_shown user true) (update (is_own id user) (read_now now) ns) + 1
      ≡ count (is_shown user true) ns
marked_count id user now [] d h = ground arith
marked_count id user now (n ∷ ns) d h = elim (Bool-cases (n.id == id)) [
  | inl here ↦
      let key : n.id ≡ id = ground arith in
      let alone : exists (λ x. x.id == id) ns ≡ false = rw (← key) d.0 in
      ground (arith, marked_absent id user now ns alone, absent_own id user ns alone, here)
  | inr other ↦ let rest = marked_count id user now ns d.1 in ground (arith, rest, other)
]

mark_effect :
    (id user : ℕ) (w : World)
    → (mark_read id user w).0 ≡ ok tt
    → (mark_read id user w).1.db.notifications
      ≡ update (is_own id user) (read_now w.now) w.db.notifications
unfolding mark_read exec attempt mark_rows
mark_effect id user w h = ground arith

count_effect :
    (user n : ℕ) (w : World)
    → (count_unread_by_user_id user w).0 ≡ ok n
    → n ≡ count (is_shown user true) w.db.notifications
unfolding count_unread_by_user_id exec attempt
count_effect user n w h = ground arith

-- Where identifiers are distinct, a MarkRead of an unread notification of the user that succeeds takes one
-- from what CountUnreadByUserID says on the tables before and after it.
pub count_unread-mark_read :
    (id user before after : ℕ) (w v : World)
    → DistinctBy (λ n. n.id) w.db.notifications
    → exists (λ n. is_own id user n && is_unread n) w.db.notifications ≡ true
    → (mark_read id user w).0 ≡ ok tt
    → v.db.notifications ≡ (mark_read id user w).1.db.notifications
    → (count_unread_by_user_id user w).0 ≡ ok before
    → (count_unread_by_user_id user v).0 ≡ ok after
    → after + 1 ≡ before
count_unread-mark_read id user before after w v d unread h same hb ha =
    let left : after
        ≡ count (is_shown user true) (update (is_own id user) (read_now w.now) w.db.notifications) =
      count_effect user after v ha
      ∙ ap (count (is_shown user true)) (same ∙ mark_effect id user w h) in
    rw left
      (marked_count id user w.now w.db.notifications d unread ∙ sym (count_effect user before w hb))
