-- ===== src/Identity/WellFormed.antt =====
-- The invariant of the store: each map holds its records under their own identifiers, once.
mod Defs
mod Saves
mod Sweeps
mod Security
mod Retention
pub use Defs.*
pub use Saves.*
pub use Sweeps.*
pub use Security.*
pub use Retention.*
