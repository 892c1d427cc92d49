-- ===== src/Container/Header.antt =====
-- internal/format/container/header.go: the plaintext header of a set.
use restore_safe.Base.{◌*◌}
mod Defs
pub mod RoundTrip
unfoldable pub use Defs.*
