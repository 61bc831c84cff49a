-- ===== src/Store.antt =====
-- The PostgreSQL database behind internal/repository: its tables (migrations/001 to 020), and the
-- calls of a statement and of a transaction, each of which may fail for reasons outside the program.
mod Schema
mod Exec
mod Statements
pub mod Constraints
pub mod Atomic
pub mod Keeps
pub mod Reads
pub mod Calm
pub mod Inversion
pub use Schema.*
unfoldable pub use Exec.*
unfoldable pub use Statements.*
