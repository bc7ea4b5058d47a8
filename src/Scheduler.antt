-- ===== src/Scheduler.antt =====
-- internal/scheduler/scheduler.go: bindings of keys to upstream accounts, and the weighted pick.
pub mod Bindings
pub mod Pick
pub mod Weights
pub mod Others
pub mod Replace
pub mod Accepted
