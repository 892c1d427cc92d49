-- ===== src/Archive/Restore.antt =====
-- restore.go: the Restorer.
use restore_safe.Base.{◌*◌}
mod Defs
pub mod Extracted
pub mod Section
pub mod Complete
unfoldable pub use Defs.*
