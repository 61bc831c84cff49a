-- ===== src/Rentals/Service.antt =====
-- internal/service/rental_service.go: requests for a rental, and the moves of its status.
pub mod Status
pub mod Handlers
pub mod Cancelling
pub mod Moves
pub mod Listing
