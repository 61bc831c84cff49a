-- ===== src/Web.antt =====
-- The handlers of internal/handler: what they read of a request, the calls of the services that they
-- make, what they record of them, and what they answer.
pub mod Replies
pub mod Validator
pub mod Params
pub mod Json
pub mod Encoded
pub mod Trail
pub mod Rentals
pub mod Payments
pub mod Cars
pub mod Maintenance
pub mod Notices
pub mod Users
pub mod Reports
pub mod Serving
