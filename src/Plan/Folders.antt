-- ===== src/Plan/Folders.antt =====
-- folders.go and keys.go: whether a directory gets a full or a differential backup.
use restore_safe.Base.{◌*◌}
mod Defs
pub mod Numbers
unfoldable pub use Defs.*
