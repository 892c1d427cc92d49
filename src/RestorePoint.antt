-- ===== src/RestorePoint.antt =====
-- internal/workflow/restorepoint: restoring and verifying a full backup, or a differential and its
-- full backup.
use restore_safe.Base.{◌*◌}
mod Defs
pub mod Listed
pub mod Opened
pub mod Complete
pub mod Written
unfoldable pub use Defs.*
