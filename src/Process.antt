-- ===== src/Process.antt =====
-- kernel/src/process: the scheduler, the wait queues and the signals.
pub mod Scheduler
pub mod WaitQueue
pub mod Signal
pub mod Life
