-- ===== src/Container/KeySet.antt =====
-- keyset.go: key sets and their slots.
use restore_safe.Base.{◌*◌}
mod Defs
pub mod Slots
pub mod Validate
pub mod Counts
unfoldable pub use Defs.*
