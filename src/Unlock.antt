-- ===== src/Unlock.antt =====
-- internal/workflow/unlock: the questions that unlock the master keys of a run.
use restore_safe.Base.{◌*◌}
mod Defs
pub mod Outcomes
pub mod Attempts
pub mod Opened
pub mod Masters
unfoldable pub use Defs.*
