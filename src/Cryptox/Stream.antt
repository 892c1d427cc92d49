-- ===== src/Cryptox/Stream.antt =====
-- crypto.go: EncryptStream and DecryptStream. A sink collects the bytes that were written to dst
-- before the function returned, with the error that it returned.
use restore_safe.Base.{◌*◌}
mod Defs
pub mod RoundTrip
pub mod Authentic
unfoldable pub use Defs.*
