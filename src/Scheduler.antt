-- ===== src/Scheduler.antt =====
-- The scheduler of packages/scheduler/src.
pub mod Cron
pub mod Service
mod Tests
