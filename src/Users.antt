-- ===== src/Users.antt =====
-- Users and their sessions: internal/repository/user_repository.go,
-- internal/repository/auth_token_repository.go, internal/auth and internal/service/user_service.go.
pub mod Repository
pub mod Listing
pub mod Tokens
pub mod Platform
pub mod Inputs
pub mod Service
pub mod Profiles
pub mod Effects
pub mod Opening
pub mod Sessions
pub mod Attempts
pub mod Verifying
pub mod Signing
pub mod Searching
