-- ===== src/Queue/Enqueue.antt =====
-- `enqueue_scheduled` and `enqueue_manual` of src/carve/core/state/job_queue.py. The fresh
-- identifier and the time are arguments.
pub mod Dedup
pub mod Outcome
pub mod Stored
use carve.Common.{
  ℕ, String, Bool, true, false, Option, none, some, List, [], ◌∷◌, ◌++◌, ◌&&◌, if◌then◌else◌,
  string_eq, nat_eq, ◌==◌,
}
use carve.Queue.Table.{
  Job, Queue, QueueError, Result, ok, err, queued, queued_job_already_exists, job_queued, is_queued,
  in_slot, occupied, store, emit, update_where, ◌>>=◌,
}

-- except QueuedJobAlreadyExists
abbrev pub is_duplicate : QueueError → Bool
is_duplicate queued_job_already_exists = true
is_duplicate _ = false

-- What a caller asks for.
pub record Request : Type 0 where
  pub pipeline : String
  pub target : String
  pub trigger : String
  pub scheduled_for : Option ℕ
  pub required_label : Option String
  pub tenant_id : ℕ

-- The row of the INSERT.
abbrev pub new_job : String → ℕ → Request → Job
new_job job_id now r = record {
  id = job_id;
  pipeline = r.pipeline;
  target = r.target;
  status = queued;
  trigger = r.trigger;
  required_label = r.required_label;
  scheduled_for = r.scheduled_for;
  tenant_id = r.tenant_id;
  run_id = none;
  claimed_by = none;
  claimed_at = none;
  heartbeat_at = none;
  started_at = none;
  finished_at = none;
  error_message = none;
  created_at = now;
}

abbrev pub queued_event : Job → Queue → Queue
queued_event j = emit (job_queued j.id j.pipeline j.target j.trigger j.scheduled_for)

insert_job : Job → Queue → Result (Job × Queue)
insert_job j q = do
  jobs ← store (q.jobs ++ (j ∷ []))
  ok (j, queued_event j (record q { jobs = jobs }))

-- ON CONFLICT DO NOTHING: a queued row in the slot makes the insert return no row.
unfoldable pub enqueue_scheduled : String → ℕ → Request → Queue → Result (Job × Queue)
unfolding insert_job
enqueue_scheduled job_id now r q =
    if occupied is_queued r.pipeline r.tenant_id q.jobs
    then err queued_job_already_exists
    else insert_job (new_job job_id now (record r { trigger = "scheduled" })) q

-- The queued row of a slot, if there is one.
unfoldable pub find_queued : String → ℕ → List Job → Option Job
find_queued pipeline tenant_id [] = none
find_queued pipeline tenant_id (j ∷ jobs) =
    if is_queued j.status && in_slot pipeline tenant_id j
    then some j
    else find_queued pipeline tenant_id jobs

-- DO UPDATE SET trigger, target, scheduled_for, required_label
abbrev pub refresh : Request → Job → Job
refresh r j = record j {
  trigger = r.trigger;
  target = r.target;
  scheduled_for = none;
  required_label = r.required_label;
}

-- A conflicting row is refreshed in place and keeps its id. The event names the request's values.
unfoldable pub enqueue_manual : String → ℕ → Request → Queue → Result (Job × Queue)
unfolding insert_job
enqueue_manual job_id now r q = elim (find_queued r.pipeline r.tenant_id q.jobs) [
  | none ↦ insert_job (new_job job_id now (record r { scheduled_for = none })) q
  | some j ↦ do
    jobs ← store (
        update_where (λ k. is_queued k.status && in_slot r.pipeline r.tenant_id k) (refresh r)
          q.jobs)
    ok (
      refresh r j,
      emit (job_queued j.id r.pipeline r.target r.trigger none) (record q { jobs = jobs }),
    )
]
