-- ===== src/Tests.antt =====
-- Concrete runs of the repositories and the services: a customer books a car, and the booking is
-- approved, paid for, used, and cancelled or refunded; users sign in; requests pass the middleware.
pub mod Data
pub mod Run
pub mod Coherent
pub mod Examples
pub mod Accounts
pub mod Requests
pub mod Lists
pub mod Served
