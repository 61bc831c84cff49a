-- ===== src/Invoices.antt =====
-- Invoices: internal/repository/invoice_repository.go and internal/service/invoice_service.go.
pub mod Repository
pub mod Service
