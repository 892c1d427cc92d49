-- ===== src/Cryptox/Platform.antt =====
-- The functions of Go's standard library and of golang.org/x/crypto that the code calls.
use restore_safe.Base.{Bytes, Option, length, ℕ, ◌≡◌}

pub record Platform : Type 0 where
  -- sha256.Sum256
  pub sha256 : Bytes → Bytes
  pub length-sha256 : (b : Bytes) → length (sha256 b) ≡ 32
  -- argon2.IDKey of a secret, a salt, the time, the memory in KiB and the threads, for 32 bytes.
  pub argon2_id_key : Bytes → Bytes → ℕ → ℕ → ℕ → Bytes
  pub length-argon2_id_key :
      (secret salt : Bytes) (time memory threads : ℕ)
      → length (argon2_id_key secret salt time memory threads) ≡ 32
  -- hkdf.Key over SHA-256 of a master key, a salt and an info text, for 32 bytes.
  pub hkdf_key : Bytes → Bytes → Bytes → Bytes
  pub length-hkdf_key : (master salt info : Bytes) → length (hkdf_key master salt info) ≡ 32
  -- base64.StdEncoding.DecodeString and EncodeToString.
  pub base64_decode : Bytes → Option Bytes
  pub base64_encode : Bytes → Bytes
  -- time.Parse for RFC 3339, in nanoseconds since the zero time.
  pub parse_time : Bytes → Option ℕ
