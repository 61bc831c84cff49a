-- ===== src/Maintenance.antt =====
-- Maintenance periods of cars: internal/repository/maintenance_repository.go and
-- internal/service/maintenance_service.go.
pub mod Repository
pub mod Service
pub mod Synced
