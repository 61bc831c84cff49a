-- ===== src/Cars.antt =====
-- Cars: internal/repository/car_repository.go and internal/service/car_service.go.
pub mod Repository
pub mod Listing
pub mod Service
pub mod Free
