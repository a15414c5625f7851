-- ===== src/Runtime/Store.antt =====
-- The state store: the job queue with the runs, workers and step_runs tables of
-- src/carve/core/state/models.py, and the methods of src/carve/core/state/repository.py and
-- job_queue.py that write these tables.
pub mod Rows
use carve.Common.{
  ℕ, String, Bool, true, false, Option, none, some, List, [], ◌∷◌, ◌++◌, ◌==◌, string_eq, nat_eq,
  if◌then◌else◌,
}
use carve.Common.Dict.{Dict}
use carve.Pipeline.Step.{StepStatus}
use carve.Queue.Table.{
  Queue, Result, ok, err, integrity_error, key_error, Millis, elapsed, emit, worker_registered,
  worker_unregistered,
}

-- Python's None, as the value of a call.
pub data NoValue : Type 0 where
  no_value : NoValue

pub data RunRowStatus : Type 0 where
  run_queued run_running run_success run_failed run_cancelled run_crashed : RunRowStatus

-- The columns of `runs` that the runtime reads or writes.
pub record Run : Type 0 where
  pub id : String
  pub kind : String
  pub target_id : String
  pub target : Option String
  pub pipeline_name : Option String
  pub parent_run_id : Option String
  pub status : RunRowStatus
  pub started_at : Option ℕ
  pub completed_at : Option ℕ
  pub duration_ms : Option Millis
  pub error_message : Option String
  pub created_at : ℕ

pub data WorkerStatus : Type 0 where
  active stopped : WorkerStatus

pub record WorkerRow : Type 0 where
  pub id : String
  pub host : String
  pub pid : ℕ
  pub label : Option String
  pub tenant_id : ℕ
  pub status : WorkerStatus
  pub started_at : ℕ
  pub last_heartbeat_at : ℕ

-- A step's row runs until it has the status of a result.
pub data StepRunStatus : Type 0 where
  step_running : StepRunStatus
  step_ended : StepStatus → StepRunStatus

pub record StepRun : Type 0 where
  pub id : String
  pub run_id : String
  pub step_id : String
  pub step_type : String
  pub status : StepRunStatus
  pub attempt : ℕ
  pub outputs : Dict String
  pub error_message : Option String
  pub started_at : Option ℕ
  pub finished_at : Option ℕ
  pub duration_ms : Option ℕ
  pub created_at : ℕ

-- `hook_calls` are the payloads that the hook `on_run_failed` was called with: the pipeline, the
-- run, the target and the error.
pub record Store : Type 0 where
  pub queue : Queue
  pub runs : List Run
  pub workers : List WorkerRow
  pub step_runs : List StepRun
  pub hook_calls : List (String × String × String × String)

module _ {R : Type 0} (key : R → String) where
  -- session.get(Table, id)
  unfoldable pub find_row : String → List R → Option R
  find_row id [] = none
  find_row id (r ∷ rows) = if key r == id then some r else find_row id rows

  -- The row with the id is changed in place.
  unfoldable pub change_row : String → (R → R) → List R → List R
  change_row id f [] = []
  change_row id f (r ∷ rows) = if key r == id then f r ∷ rows else r ∷ change_row id f rows

  -- The primary key refuses a second row with an id.
  unfoldable pub add_row : R → List R → Result (List R)
  unfolding find_row
  add_row r rows = elim (find_row (key r) rows) [
    | none ↦ ok (rows ++ (r ∷ []))
    | some old ↦ err integrity_error
  ]

  -- The row must be there.
  unfoldable pub write_row : String → (R → R) → List R → Result (List R)
  unfolding find_row change_row
  write_row id f rows = elim (find_row id rows) [
    | none ↦ err key_error
    | some r ↦ ok (change_row id f rows)
  ]

abbrev pub run_key : Run → String
run_key r = r.id

abbrev pub worker_key : WorkerRow → String
worker_key r = r.id

abbrev pub step_run_key : StepRun → String
step_run_key r = r.id

-- The row of `Repository.create_run`, in the default status.
abbrev pub new_run :
    String → ℕ → String → String → Option String → Option String → Option String → Run
new_run run_id now kind target_id pipeline_name target parent_run_id = record {
  id = run_id;
  kind = kind;
  target_id = target_id;
  target = target;
  pipeline_name = pipeline_name;
  parent_run_id = parent_run_id;
  status = run_queued;
  started_at = none;
  completed_at = none;
  duration_ms = none;
  error_message = none;
  created_at = now;
}

unfoldable pub create_run : Run → Store → Result (String × Store)
unfolding add_row
create_run run s = elim (add_row run_key run s.runs) [
  | err e ↦ err e
  | ok rows ↦ ok (run.id, record s { runs = rows })
]

abbrev pub is_terminal_run : RunRowStatus → Bool
is_terminal_run run_queued = false
is_terminal_run run_running = false
is_terminal_run _ = true

-- if error is not None: run.error_message = error
abbrev pub or_keep : Option String → Option String → Option String
or_keep none old = old
or_keep (some e) old = some e

-- status == "running" and run.started_at is None
abbrev pub begun : RunRowStatus → ℕ → Option ℕ → Option ℕ
begun run_running now none = some now
begun _ now old = old

-- The duration of a run that was started.
abbrev pub lasted : ℕ → Option ℕ → Option Millis → Option Millis
lasted now none old = old
lasted now (some started) old = some (elapsed started now)

unfoldable pub change_status : RunRowStatus → Option String → ℕ → Run → Run
change_status status error now r =
    let started = begun status now r.started_at in
    record r {
      status = status;
      error_message = or_keep error r.error_message;
      started_at = started;
      completed_at = if is_terminal_run status then some now else r.completed_at;
      duration_ms =
          if is_terminal_run status then lasted now started r.duration_ms else r.duration_ms;
    }

unfoldable pub update_run_status :
    String → RunRowStatus → Option String → ℕ → Store → Result (NoValue × Store)
unfolding write_row change_status
update_run_status run_id status error now s =
    elim (write_row run_key run_id (change_status status error now) s.runs) [
      | err e ↦ err e
      | ok rows ↦ ok (no_value, record s { runs = rows })
    ]

unfoldable pub get_run : String → Store → Result (Option Run × Store)
unfolding find_row
get_run run_id s = ok (find_row run_key run_id s.runs, s)

-- The event seam of the queue.
abbrev pub with_queue : (Queue → Queue) → Store → Store
with_queue f s = record s { queue = f s.queue }

module _ {A : Type 0} where
  -- A method of the queue that returns a value.
  unfoldable pub of_queue : Store → Result (A × Queue) → Result (A × Store)
  of_queue s (ok (a, q)) = ok (a, record s { queue = q })
  of_queue s (err e) = err e

-- A method of the queue that returns nothing.
unfoldable pub of_queue_read {ℓ} : {A : Type ℓ} → Store → Result A → Result (A × Store)
of_queue_read s (err e) = err e
of_queue_read s (ok a) = ok (a, s)

unfoldable pub of_queue_only : Store → Result Queue → Result (NoValue × Store)
of_queue_only s (ok q) = ok (no_value, record s { queue = q })
of_queue_only s (err e) = err e

abbrev pub new_worker : String → String → ℕ → Option String → ℕ → ℕ → WorkerRow
new_worker worker_id host pid label tenant_id now = record {
  id = worker_id;
  host = host;
  pid = pid;
  label = label;
  tenant_id = tenant_id;
  status = active;
  started_at = now;
  last_heartbeat_at = now;
}

abbrev pub refresh_worker : String → ℕ → Option String → ℕ → WorkerRow → WorkerRow
refresh_worker host pid label now r = record r {
  host = host;
  pid = pid;
  label = label;
  status = active;
  last_heartbeat_at = now;
}

-- Idempotent on the id: a row that is there is refreshed, and keeps its start and its tenant.
unfoldable pub register_worker :
    String → String → ℕ → Option String → ℕ → ℕ → Store → Result (NoValue × Store)
unfolding find_row change_row
register_worker worker_id host pid label tenant_id now s =
    let rows : List WorkerRow = elim (find_row worker_key worker_id s.workers) [
      | none ↦ s.workers ++ (new_worker worker_id host pid label tenant_id now ∷ [])
      | some r ↦ change_row worker_key worker_id (refresh_worker host pid label now) s.workers
    ] in
    ok (
      no_value,
      record s { workers = rows; queue = emit (worker_registered worker_id host pid) s.queue },
    )

abbrev pub stop_worker : ℕ → WorkerRow → WorkerRow
stop_worker now r = record r { status = stopped; last_heartbeat_at = now }

-- A row that is not there is no error.
unfoldable pub unregister_worker : String → ℕ → Store → Result (NoValue × Store)
unfolding find_row change_row
unregister_worker worker_id now s = elim (find_row worker_key worker_id s.workers) [
  | none ↦ ok (no_value, s)
  | some r ↦ ok (
    no_value,
    record s {
      workers = change_row worker_key worker_id (stop_worker now) s.workers;
      queue = emit (worker_unregistered worker_id r.host r.pid) s.queue;
    },
  )
]
