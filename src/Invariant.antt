-- ===== src/Invariant.antt =====
-- The invariants of the contexts, kept by every operation on them.
pub mod Task
pub mod Tasks
pub mod Placing
pub mod Waking
pub mod Running
pub mod Rt
pub mod Calls
