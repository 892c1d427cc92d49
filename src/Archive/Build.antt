-- ===== src/Archive/Build.antt =====
-- build.go: BuildTar.
use restore_safe.Base.{◌*◌}
mod Data
mod Defs
pub mod Logged
pub mod Files
pub mod Visits
pub mod Walks
pub mod Paths
pub mod Verified
unfoldable pub use Data.*
unfoldable pub use Defs.*
