-- ===== src/Container/Set.antt =====
-- internal/format/container/set.go: a whole set, its sections between the header and the trailer.
use restore_safe.Base.{◌*◌}
mod Defs
pub mod Parts
pub mod Lengths
pub mod RoundTrip
unfoldable pub use Defs.*
