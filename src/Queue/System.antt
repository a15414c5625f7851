-- ===== src/Queue/System.antt =====
-- All histories of the job queue (src/carve/core/state/job_queue.py): each step is one transaction of
-- some caller that succeeded. Callers are the scheduler and the commands that enqueue, any number of
-- workers, and the reaper; a transaction that raises writes nothing and is no step. The archiver, which
-- takes old rows out of the table, is apart.
mod Tests
pub mod Lives
pub mod Safety
use carve.Common.{ℕ, String, Bool, true, Option, some, List, ◌≡◌}
use carve.Queue.Table.{Job, Status, Queue, ok}
use carve.Queue.Enqueue.{Request, enqueue_scheduled, enqueue_manual}
use carve.Queue.Claim.{claim_next}
use carve.Queue.Transitions.{transition_to_running, mark_finished, release_claim, stamp_heartbeat}
use carve.Queue.Reclaim.{reclaim_stale}
use carve.Queue.Life.{is_terminal}

-- Workers pass their own id with every write, as `run_once` does, and finish with a terminal status.
-- `release_claim` has no guard: it may come at any time, whatever the job is by then. A beat
-- is the write of `update_heartbeat`, by any worker: what the read said may be out of date.
pub data Step (q q' : Queue) : Type 0 where
  schedules :
      (id : String) (now : ℕ) (r : Request) (j : Job)
      → enqueue_scheduled id now r q ≡ ok (j, q')
      → Step q q'
  enqueues :
      (id : String) (now : ℕ) (r : Request) (j : Job)
      → enqueue_manual id now r q ≡ ok (j, q')
      → Step q q'
  claims :
      (locked : String → Bool) (worker : String) (label : Option String) (tenant now : ℕ) (j : Job)
      → claim_next locked worker label tenant now q ≡ ok (some j, q')
      → Step q q'
  starts :
      (id run worker : String) (now : ℕ) (landed : Bool)
      → transition_to_running id run (some worker) now q ≡ ok (landed, q')
      → Step q q'
  finishes :
      (id worker : String) (status : Status) (error : Option String) (now : ℕ) (landed : Bool)
      → is_terminal status ≡ true
      → mark_finished id status error (some worker) now q ≡ ok (landed, q')
      → Step q q'
  releases : (id : String) → release_claim id q ≡ ok q' → Step q q'
  beats : (id : String) (stamp : ℕ) → stamp_heartbeat id stamp q ≡ ok q' → Step q q'
  reaps :
      (locked : String → Bool) (tenant now threshold : ℕ)
      (rows : List (String × Option String × Option String))
      → reclaim_stale locked tenant now threshold q ≡ ok (rows, q')
      → Step q q'

-- What any number of steps makes of a queue.
pub data Reach (q : Queue) : Queue → Type 0 where
  here : Reach q q
  later : {r s : Queue} → Reach q r → Step r s → Reach q s
