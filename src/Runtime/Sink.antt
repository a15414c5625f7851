-- ===== src/Runtime/Sink.antt =====
-- The sink that writes the rows of step_runs: src/carve/runtime/persisting_step_sink.py over
-- `create_step_run` and `finish_step_run` of src/carve/core/state/job_queue.py.
pub mod Attempts
use carve.Common.{
  ℕ, String, Bool, true, false, Option, none, some, List, [], ◌∷◌, ◌++◌, ◌&&◌, ◌==◌, string_eq,
  nat_eq, if◌then◌else◌,
}
use carve.Common.Dict.{Dict}
use carve.Pipeline.Step.{PipelineStep, StepStatus, succeeded, failed, skipped, StepResult}
use carve.Queue.Table.{
  Queue, Event, Result, ok, err, ◌>>=◌, emit, step_has_started, step_has_failed, step_has_completed,
}
use carve.Runtime.Store.{
  Store, StepRun, StepRunStatus, step_running, step_ended, step_run_key, add_row, write_row,
}

abbrev pub new_step_run : String → String → String → String → ℕ → Option ℕ → ℕ → StepRun
new_step_run step_run_id run_id step_id step_type attempt started_at now = record {
  id = step_run_id;
  run_id = run_id;
  step_id = step_id;
  step_type = step_type;
  status = step_running;
  attempt = attempt;
  outputs = [];
  error_message = none;
  started_at = elim started_at [ none ↦ some now | some t ↦ some t ];
  finished_at = none;
  duration_ms = none;
  created_at = now;
}

-- The fresh id and the time are arguments.
unfoldable pub create_step_run : StepRun → Store → Result Store
create_step_run r s = do
  rows ← add_row step_run_key r s.step_runs
  ok (record s { step_runs = rows })

-- outputs, error_message, finished_at and duration_ms of a result
pub record Ending : Type 0 where
  pub status : StepStatus
  pub outputs : Dict String
  pub error_message : Option String
  pub finished_at : Option ℕ
  pub duration_ms : Option ℕ

abbrev pub end_step_run : Ending → ℕ → StepRun → StepRun
end_step_run e now r = record r {
  status = step_ended e.status;
  outputs = e.outputs;
  error_message = e.error_message;
  finished_at = elim e.finished_at [ none ↦ some now | some t ↦ some t ];
  duration_ms = e.duration_ms;
}

unfoldable pub finish_step_run : String → Ending → ℕ → Store → Result Store
finish_step_run step_run_id e now s = do
  rows ← write_row step_run_key step_run_id (end_step_run e now) s.step_runs
  ok (record s { step_runs = rows })

-- The ids of the rows of the attempts that are open, by the step and the attempt.
pub record Sink : Type 0 where
  pub run_id : String
  pub open_rows : List ((String × ℕ) × String)

abbrev pub same_key : String × ℕ → String × ℕ → Bool
same_key (a, m) (b, n) = a == b && m == n

-- self._open[key] = id
unfoldable pub put_open :
    String × ℕ → String → List ((String × ℕ) × String) → List ((String × ℕ) × String)
put_open key id [] = (key, id) ∷ []
put_open key id ((k, old) ∷ rows) =
    if same_key key k then (k, id) ∷ rows else (k, old) ∷ put_open key id rows

-- self._open.pop(key, None)
unfoldable pub pop_open :
    String × ℕ → List ((String × ℕ) × String) → Option String × List ((String × ℕ) × String)
pop_open key [] = (none, [])
pop_open key ((k, id) ∷ rows) =
    let rest = pop_open key rows in
    if same_key key k then (some id, rows) else (rest.0, (k, id) ∷ rest.1)

abbrev pub emit_to : Event → Store → Store
emit_to e s = record s { queue = emit e s.queue }

unfoldable pub step_started : String → ℕ → PipelineStep → ℕ → Sink → Store → Result (Sink × Store)
unfolding create_step_run put_open
step_started fresh now step attempt sink s = do
  created ← create_step_run (new_step_run fresh sink.run_id step.id step.type attempt none now) s
  ok (
    record sink { open_rows = put_open (step.id, attempt) fresh sink.open_rows },
    emit_to (step_has_started fresh sink.run_id step.type) created,
  )

-- step.failed for a failure, step.completed else
abbrev pub end_event : String → String → String → Ending → Event
end_event id run_id type e = elim e.status [
  | failed ↦ step_has_failed id run_id type e.error_message
  | succeeded ↦ step_has_completed id run_id type e.outputs
  | skipped ↦ step_has_completed id run_id type e.outputs
]

-- The row that `step_started` inserted, or a fresh one.
unfoldable pub row_to_end :
    Option String → String → ℕ → PipelineStep → ℕ → String → Store → Result (String × Store)
unfolding create_step_run
row_to_end (some id) fresh now step attempt run_id s = ok (id, s)
row_to_end none fresh now step attempt run_id s = do
  created ← create_step_run (new_step_run fresh run_id step.id step.type attempt none now) s
  ok (fresh, created)

unfoldable pub step_finished :
    String → ℕ → PipelineStep → Ending → ℕ → Sink → Store → Result (Sink × Store)
unfolding pop_open row_to_end finish_step_run
step_finished fresh now step e attempt sink s = do
  let popped = pop_open (step.id, attempt) sink.open_rows
  row ← row_to_end popped.0 fresh now step attempt sink.run_id s
  finished ← finish_step_run row.0 e now row.1
  ok (
    record sink { open_rows = popped.1 },
    emit_to (end_event row.0 sink.run_id step.type e) finished,
  )
