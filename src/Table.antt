-- ===== src/Table.antt =====
-- Go's `map[string]V` as an association list. The order of the entries stands for the order in
-- which a `range` loop visits them; a new key goes to the end.
mod Defs
mod Laws
mod Unique
mod Loops
mod Keyed
unfoldable pub use Defs.*
pub use Laws.*
pub use Unique.*
pub use Loops.*
pub use Keyed.*
