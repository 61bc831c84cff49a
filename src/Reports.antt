-- ===== src/Reports.antt =====
-- Reports: internal/repository/report_repository.go and internal/service/report_service.go.
pub mod Repository
pub mod Service
pub mod Totals
