-- ===== src/Task.antt =====
-- kernel/src/task: processes and the round-robin scheduler.
pub mod Process
pub mod Scheduler
