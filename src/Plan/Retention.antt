-- ===== src/Plan/Retention.antt =====
-- internal/workflow/plan/retention.go: which backup sets retention removes.
use restore_safe.Base.{◌*◌}
mod Defs
pub mod Joined
pub mod Chains
pub mod Safe
unfoldable pub use Defs.*
