-- ===== src/Notices.antt =====
-- Notifications and the audit log: internal/repository/notification_repository.go,
-- internal/repository/audit_repository.go and the services over them.
pub mod Notifications
pub mod Audits
pub mod Reading
