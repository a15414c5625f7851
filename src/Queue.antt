-- ===== src/Queue.antt =====
-- The durable job queue (src/carve/core/state/job_queue.py) over the `jobs` table of
-- src/carve/core/state/models.py. A method is one transaction: it returns its value with the new
-- state, or an error, and then nothing is written.
mod Tests
pub mod Table
pub mod Rows
pub mod Single
pub mod Enqueue
pub mod Claim
pub mod Transitions
pub mod Reclaim
pub mod Life
pub mod System
