-- ===== src/Recovery.antt =====
-- internal/security/recovery: recovery codes.
use restore_safe.Base.{◌*◌}
mod Defs
pub mod RoundTrip
pub mod Generate
unfoldable pub use Defs.*
