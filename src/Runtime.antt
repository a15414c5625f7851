-- ===== src/Runtime.antt =====
-- The processes around the job queue: the worker with its heartbeat, the reaper, and the tables that
-- they share (src/carve/runtime, src/carve/core/state/repository.py and job_queue.py).
mod Tests
pub mod Store
pub mod Call
pub mod Worker
pub mod Sink
pub mod Reaper
pub mod Archiver
