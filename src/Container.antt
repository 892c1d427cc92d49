-- ===== src/Container.antt =====
-- internal/format/container: the on-disk layout of a backup set.
pub mod Trailer
pub mod KeySet
pub mod Header
pub mod Set
pub mod Split
