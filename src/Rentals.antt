-- ===== src/Rentals.antt =====
-- Rentals: internal/repository/rental_repository.go and internal/service/rental_service.go.
pub mod Repository
pub mod Lifecycle
pub mod Bookings
pub mod Listings
pub mod Filtered
pub mod Service
pub mod Calendar
pub mod Blocked
pub mod Calendared
