-- ===== src/Cryptox.antt =====
-- internal/security/cryptox: authenticated encryption of keys and streams, and its parameters.
pub mod Platform
pub mod Gcm
pub mod Key
pub mod Stream
