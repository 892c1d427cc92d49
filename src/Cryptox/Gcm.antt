-- ===== src/Cryptox/Gcm.antt =====
-- The AES-256-GCM cipher that crypto.go takes from Go's standard library, as an interface.
use restore_safe.Base.{Bytes, Option, length, some, ℕ, ◌+◌, ◌≡◌}

abbrev pub key_len : ℕ
key_len = 32

abbrev pub nonce_len : ℕ
nonce_len = 12

abbrev pub gcm_tag_len : ℕ
gcm_tag_len = 16

-- cipher.AEAD. `seal key nonce plaintext aad` appends a tag of 16 bytes; `open` checks it, so that
-- it accepts exactly what `seal` makes of the plaintext under the same key, nonce and data.
pub record Aead : Type 0 where
  pub seal : Bytes → Bytes → Bytes → Bytes → Bytes
  pub open_sealed : Bytes → Bytes → Bytes → Bytes → Option Bytes
  pub length-seal : (k n p a : Bytes) → length (seal k n p a) ≡ length p + gcm_tag_len
  pub open-seal : (k n p a : Bytes) → open_sealed k n (seal k n p a) a ≡ some p
  pub open_authentic : (k n c a p : Bytes) → open_sealed k n c a ≡ some p → c ≡ seal k n p a
