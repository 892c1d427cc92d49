-- ===== src/Catalog.antt =====
-- internal/format/catalog: the sets of a backup directory.
use restore_safe.Base.{◌*◌}
mod Defs
pub mod Continuity
unfoldable pub use Defs.*
