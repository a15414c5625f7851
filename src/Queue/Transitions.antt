-- ===== src/Queue/Transitions.antt =====
-- `transition_to_running`, `mark_finished`, `release_claim` and `update_heartbeat` of
-- src/carve/core/state/job_queue.py. An expected worker turns a write into a guarded UPDATE that
-- matches no row when the claim was lost.
pub mod Guarded
pub mod Exact
use carve.Common.{
  ℕ, String, Bool, true, false, Option, none, some, List, [], ◌∷◌, ◌||◌, ◌&&◌, not, if◌then◌else◌,
  string_eq, nat_eq, option_eq, ◌==◌,
}
use carve.Queue.Table.{
  Job, Queue, Status, Result, ok, err, queued, running, is_claimed, is_held, key_error,
  pipeline_already_running, store, get_job, update_where, any_row, ◌>>=◌,
}

-- `except IntegrityError: raise PipelineAlreadyRunning`
unfoldable pub serialized : Result (List Job) → Result (List Job)
serialized (ok jobs) = ok jobs
serialized (err e) = err pipeline_already_running

abbrev pub start_run : String → ℕ → Job → Job
start_run run_id now j = record j { status = running; run_id = some run_id; started_at = some now }

-- The WHERE clauses of the guarded writes.
abbrev pub claim_of : String → String → Job → Bool
claim_of job_id worker_id j =
    j.id == job_id && (j.claimed_by == some worker_id && is_claimed j.status)

abbrev pub hold_of : String → String → Job → Bool
hold_of job_id worker_id j = j.id == job_id && (j.claimed_by == some worker_id && is_held j.status)

-- The Boolean is whether the flip landed.
unfoldable pub transition_to_running :
    String → String → Option String → ℕ → Queue → Result (Bool × Queue)
unfolding serialized
transition_to_running job_id run_id (some worker_id) now q = do
  jobs ← serialized (store (update_where (claim_of job_id worker_id) (start_run run_id now) q.jobs))
  ok (any_row (claim_of job_id worker_id) q.jobs, record q { jobs = jobs })
transition_to_running job_id run_id none now q = elim (get_job job_id q.jobs) [
  | none ↦ err key_error
  | some j ↦ do
    jobs ← serialized (store (update_where (λ k. k.id == job_id) (start_run run_id now) q.jobs))
    ok (true, record q { jobs = jobs })
]

-- COALESCE(:error_message, error_message)
abbrev pub coalesce : Option String → Option String → Option String
coalesce none old = old
coalesce (some e) old = some e

abbrev pub finish : Status → Option String → ℕ → Job → Job
finish status error_message now j = record j {
  status = status;
  finished_at = some now;
  error_message = coalesce error_message j.error_message;
}

unfoldable pub mark_finished :
    String → Status → Option String → Option String → ℕ → Queue → Result (Bool × Queue)
mark_finished job_id status error_message (some worker_id) now q = do
  jobs ← store (update_where (hold_of job_id worker_id) (finish status error_message now) q.jobs)
  ok (any_row (hold_of job_id worker_id) q.jobs, record q { jobs = jobs })
mark_finished job_id status error_message none now q = elim (get_job job_id q.jobs) [
  | none ↦ err key_error
  | some j ↦ do
    jobs ← store (update_where (λ k. k.id == job_id) (finish status error_message now) q.jobs)
    ok (true, record q { jobs = jobs })
]

abbrev pub drop_claim : Job → Job
drop_claim j = record j { status = queued; claimed_by = none; claimed_at = none }

unfoldable pub release_claim : String → Queue → Result Queue
release_claim job_id q = elim (get_job job_id q.jobs) [
  | none ↦ err key_error
  | some j ↦ do
    jobs ← store (update_where (λ k. k.id == job_id) drop_claim q.jobs)
    ok (record q { jobs = jobs })
]

-- `expected_worker_id is not None and job.claimed_by != expected_worker_id`
abbrev pub lost : Option String → Job → Bool
lost none j = false
lost (some worker_id) j = not (j.claimed_by == some worker_id)

-- The read of `update_heartbeat`: whether the job is still the worker's.
unfoldable pub may_beat : String → Option String → Queue → Result Bool
may_beat job_id expected q = elim (get_job job_id q.jobs) [
  | none ↦ err key_error
  | some j ↦ ok (not (lost expected j))
]

-- Its write, an UPDATE by the row's id alone.
unfoldable pub stamp_heartbeat : String → ℕ → Queue → Result Queue
stamp_heartbeat job_id stamp q = do
  jobs ←
      store
        (update_where (λ k. k.id == job_id) (λ k. record k { heartbeat_at = some stamp }) q.jobs)
  ok (record q { jobs = jobs })

-- `between` is what the others commit after the read and before the write.
unfoldable pub update_heartbeat :
    (Queue → Queue) → String → ℕ → Option String → Queue → Result Queue
unfolding may_beat stamp_heartbeat
update_heartbeat between job_id stamp expected q = elim (may_beat job_id expected q) [
  | err e ↦ err e
  | ok mine ↦ if mine then stamp_heartbeat job_id stamp (between q) else ok (between q)
]
