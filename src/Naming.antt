-- ===== src/Naming.antt =====
-- internal/format/naming: the names of part files and log files.
use restore_safe.Base.{◌*◌}
mod Entry
mod Parse
pub mod Validate
unfoldable pub use Entry.*
unfoldable pub use Parse.*
