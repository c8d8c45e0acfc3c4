-- ===== src/Examples.antt =====
-- A machine of four cpus in two LLCs, and the theorems at states of it.
pub mod Sample
mod Tiers
mod Cores
pub mod Boot
mod Loading
mod Whole
mod Starving
mod Woken
