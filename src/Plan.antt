-- ===== src/Plan.antt =====
-- internal/workflow/plan: what a backup run does and which sets it removes.
pub mod Retention
pub mod Folders
