-- ===== src/Flow.antt =====
-- internal/gui/flow: the lifecycle of the operations in the window.
pub mod Speed
pub mod Machine
pub mod Reach
pub mod Rising
pub mod Invariant
