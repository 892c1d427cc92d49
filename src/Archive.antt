-- ===== src/Archive.antt =====
-- internal/format/archive: the TAR stream of a set's files, and what a restore does with it.
pub mod Tar
pub mod Dest
pub mod Build
pub mod Restore
