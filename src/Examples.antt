-- ===== src/Examples.antt =====
-- Each theorem that has hypotheses, applied to concrete values that meet them.
pub mod Platforms
pub mod Crypto
pub mod Files
pub mod Sets
pub mod Flows
pub mod Manifests
pub mod Restores
pub mod Plans
pub mod Builds
