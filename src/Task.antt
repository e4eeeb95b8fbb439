-- ===== src/Task.antt =====
-- src/task: what tasks share.
pub mod Semaphore
pub mod Signal
pub mod Schedule
pub mod Family
