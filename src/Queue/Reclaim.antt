-- ===== src/Queue/Reclaim.antt =====
-- `reclaim_stale` of src/carve/core/state/job_queue.py: one statement returns every job with a
-- stale heartbeat to the queue.
pub mod Sweep
use carve.Common.{
  ℕ, ◌-◌, String, Bool, true, false, Option, none, some, List, [], ◌∷◌, ◌||◌, ◌&&◌, not, ltb, ◌+◌,
  if◌then◌else◌, string_eq, nat_eq, ◌==◌,
}
use carve.Queue.Table.{Job, Queue, Result, ok, err, queued, is_held, store, update_where, ◌>>=◌}

-- heartbeat_at < :cutoff with cutoff = now - threshold, written without a negative number; a NULL
-- heartbeat is never stale.
abbrev pub is_stale_beat : ℕ → ℕ → Option ℕ → Bool
is_stale_beat now threshold none = false
is_stale_beat now threshold (some beat) = ltb (beat + threshold) now

unfoldable pub stale : (String → Bool) → ℕ → ℕ → ℕ → Job → Bool
stale locked tenant_id now threshold j =
    (is_held j.status && j.tenant_id == tenant_id)
    && (is_stale_beat now threshold j.heartbeat_at && not (locked j.id))

abbrev pub requeue : Job → Job
requeue j = record j { status = queued; claimed_by = none; claimed_at = none; heartbeat_at = none }

-- RETURNING jobs.id, jobs.run_id, stale.claimed_by: the owner before the update.
unfoldable pub snapshot : (Job → Bool) → List Job → List (String × Option String × Option String)
snapshot test [] = []
snapshot test (j ∷ jobs) =
    let rest = snapshot test jobs in if test j then (j.id, j.run_id, j.claimed_by) ∷ rest else rest

unfoldable pub reclaim_stale :
    (String → Bool)
    → ℕ
    → ℕ
    → ℕ
    → Queue
    → Result (List (String × Option String × Option String) × Queue)
reclaim_stale locked tenant_id now threshold q = do
  let test = stale locked tenant_id now threshold
  jobs ← store (update_where test requeue q.jobs)
  ok (snapshot test q.jobs, record q { jobs = jobs })
