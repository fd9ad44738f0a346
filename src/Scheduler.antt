-- ===== src/Scheduler.antt =====
-- internal/scheduler: the store of cron tasks with their leases, and the engine that fires them.
pub mod Store
pub mod Engine
pub mod Leases
pub mod Firing
pub mod Recurrence
