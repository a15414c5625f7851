-- ===== src/Scheduler/Fire.antt =====
-- `run_due_once` of src/carve/runtime/scheduler.py. Each call of the queue and of the schedules is a
-- transaction of its own, so what was done before an exception stays.
pub mod Turns
pub mod Queues
use carve.Common.{
  ℕ, zero, suc, ◌+◌, String, Bool, true, false, Option, none, some, List, [], ◌∷◌, ◌++◌,
  if◌then◌else◌,
}
use carve.Queue.Table.{
  Queue, Event, schedule_fired, schedule_skipped, QueueError, queued_job_already_exists, Job,
  Result, ok, err,
}
use carve.Queue.Enqueue.{Request, is_duplicate, enqueue_scheduled}
use carve.Scheduler.Cron.{Croniter, this_tick_at}
use carve.Scheduler.Table.{
  Schedule, ScheduleError, cron_error, Written, written, failed, list_due, set_last_fired,
}

-- `emitter` and `events` are those of the schedules' own sink.
pub record Runtime : Type 0 where
  pub schedules : List Schedule
  pub queue : Queue
  pub emitter : Bool
  pub events : List Event

-- `_emit` of the schedules
unfoldable pub emit : Event → Runtime → Runtime
emit e r = if r.emitter then record r { events = r.events ++ (e ∷ []) } else r

-- The exceptions that leave a pass.
pub data PassError : Type 0 where
  of_schedule : ScheduleError → PassError
  of_queue : QueueError → PassError

-- What became of one due schedule.
pub data Fired : Type 0 where
  fired skipped unresolved : Fired
  raised : PassError → Fired

-- The label of a pipeline; `none` is an exception of `resolve_label`, `some none` its `None`.
abbrev pub ResolveLabel : Type 0
ResolveLabel = String → Option (Option String)

abbrev pub request_of : Schedule → ℕ → Option String → ℕ → Request
request_of s tick label tenant_id = record {
  pipeline = s.pipeline;
  target = s.target;
  trigger = "scheduled";
  scheduled_for = some tick;
  required_label = label;
  tenant_id = tenant_id;
}

-- set_last_fired at the end of a turn
unfoldable pub advance : Croniter → Schedule → ℕ → Fired → Runtime → Runtime × Fired
advance lib s now outcome r = elim (set_last_fired lib s.id now r.schedules) [
  | written schedules ↦ (record r { schedules = schedules }, outcome)
  | failed e ↦ (r, raised (of_schedule e))
]

-- What the turn does once the queue has answered.
unfoldable pub settle :
    Croniter → Schedule → ℕ → ℕ → Result (Job × Queue) → Runtime → Runtime × Fired
unfolding advance
settle lib s now tick (ok (job, queue)) r =
    advance lib s now fired
      (emit (schedule_fired s.pipeline job.id tick) (record r { queue = queue }))
settle lib s now tick (err e) r =
    let skip = advance lib s now skipped (emit (schedule_skipped s.pipeline tick) r) in
    if is_duplicate e then skip else (r, raised (of_queue e))

-- One turn of the loop; `job_id` is the identifier that the queue would make.
unfoldable pub fire :
    Croniter → ResolveLabel → ℕ → ℕ → String → Schedule → Runtime → Runtime × Fired
fire lib resolve_label tenant_id now job_id s r = elim (this_tick_at lib s.cron now s.timezone) [
  | none ↦ (r, raised (of_schedule cron_error))
  | some tick ↦ elim (resolve_label s.pipeline) [
    | none ↦ (r, unresolved)
    | some label ↦
        settle lib s now tick
          (enqueue_scheduled job_id now (request_of s tick label tenant_id) r.queue) r
  ]
]

-- The number enqueued, or the exception that ended the pass.
pub data Pass : Type 0 where
  finished : ℕ → Pass
  aborted : PassError → Pass

unfoldable pub count_fired : Fired → Pass → Pass
count_fired fired (finished n) = finished (suc n)
count_fired _ p = p

module _ (lib : Croniter) (resolve_label : ResolveLabel) (tenant_id now : ℕ)
    (job_id_of : String → String) where
  unfoldable pub fire_all : List Schedule → Runtime → Runtime × Pass
  unfolding fire
  fire_all [] r = (r, finished 0)
  fire_all (s ∷ due) r =
      let turn = fire lib resolve_label tenant_id now (job_id_of s.id) s r in
      let rest = fire_all due turn.0 in
      elim turn.1 [
        | raised e ↦ (turn.0, aborted e)
        | fired ↦ (rest.0, count_fired fired rest.1)
        | skipped ↦ rest
        | unresolved ↦ rest
      ]

  unfoldable pub run_due_once : Runtime → Runtime × Pass
  run_due_once r = fire_all (list_due tenant_id now r.schedules) r
