-- ===== src/Scheduler.antt =====
-- Firing schedules into the job queue: src/carve/runtime/cron.py, scheduler.py and the parts of
-- src/carve/core/state/schedules.py that the scheduler calls.
mod Tests
pub mod Cron
pub mod Table
pub mod Live
pub mod Fire
