-- ===== src/Container/Split.antt =====
-- split.go: the writer that spreads one stream of bytes over part files of bounded size.
use restore_safe.Base.{◌*◌}
mod Defs
pub mod Invariant
pub mod Loop
pub mod Nonempty
pub mod Count
unfoldable pub use Defs.*
