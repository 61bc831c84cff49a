-- ===== src/Payments.antt =====
-- Payments: internal/repository/payment_repository.go and internal/service/payment_service.go.
pub mod Repository
pub mod Service
pub mod Finality
