-- ===== src/Container/Trailer.antt =====
-- trailer.go: the 64 bytes at the end of a set.
use restore_safe.Base.{◌*◌}
mod Defs
pub mod Codec
pub mod Check
unfoldable pub use Defs.*
