-- ===== src/Callbacks.antt =====
-- source/lunar.bpf.c: the callbacks of the scheduler.
pub mod Init
pub mod Wakeup
pub mod Run
pub mod Switch
pub mod Resume
pub mod Continue
