-- ===== src/Manifest.antt =====
-- internal/format/manifest/manifest.go: the list of the files and directories of a backup.
use restore_safe.Base.{◌*◌}
mod Defs
pub mod Path
pub mod Validate
pub mod Accepted
pub mod Totals
pub mod Coding
pub mod Decoded
pub mod RoundTrip
unfoldable pub use Defs.*
