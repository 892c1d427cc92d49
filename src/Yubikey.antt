-- ===== src/Yubikey.antt =====
-- internal/security/yubikey: the challenge in a key slot.
pub mod Challenge
