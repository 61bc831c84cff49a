-- ===== src/Models.antt =====
-- internal/models: the enumerations and records of the domain. A status is a text in the source;
-- `other` stands for a text that is none of the constants, the empty one included.
-- Times are nanoseconds, dates are days, both counted from one origin; amounts are cents, the
-- precision of the column NUMERIC(12, 2); identifiers are numbers.
mod Status
pub mod Texts
mod Rows
pub use Status.*
pub use Rows.*
