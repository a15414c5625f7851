-- ===== src/Pipeline/Execute.antt =====
-- The walk over a pipeline's graph (src/carve/runtime/execute_pipeline.py). Rendering, the executors
-- and the sink are parameters; an exception of theirs is its message. The hooks of the sink stand
-- outside the guard of `_launch_step`: what they raise escapes `gather` and ends the walk. The steps of a wave run
-- concurrently and read the results as they were before the wave; the hooks and the sleeps of one
-- step are in order, those of two steps are not ordered.
pub mod Progress
pub mod Retry
pub mod Termination
pub mod Status
pub mod Finishes
use carve.Common.{
  ℕ, zero, suc, ◌+◌, ◌-◌, ◌*◌, ◌^◌, min, max, String, Bool, true, false, Option, none, some, List,
  [], ◌∷◌, ◌++◌, map, if◌then◌else◌, contains, string_eq,
}
use carve.Common.Dict.{Dict, lookup, insert, keys}
use Prim.Native.String.{◌++◌ as ◌<>◌}
use carve.Common.Names.{without}
use carve.Common.Slices.{take}
use carve.Pipeline.Step.{
  Mode, fail, warn, continue, retry, skip_downstream, Backoff, exponential, linear, fixed,
  FailureMode, PipelineStep, StepStatus, succeeded, failed, skipped, StepResult, skipped_result,
}
use carve.Pipeline.Dag.{size}
use carve.Pipeline.Graph.{PipelineDag, ready_steps}
use carve.Pipeline.FailureModes.{
  RunState, initial_state, apply_failure_mode, RunStatus, derive_run_status,
}

pub data Outcome {ℓ} (A : Type ℓ) : Type ℓ where
  returned : A → Outcome A
  raised : String → Outcome A

-- The calls of the sink and the sleeper.
pub data StepEvent : Type 0 where
  step_started : PipelineStep → ℕ → StepEvent
  step_finished : PipelineStep → StepResult → ℕ → StepEvent
  slept : ℕ → StepEvent

-- Rendering reads the results so far; the world answers each attempt of a step; a hook returns or
-- raises a message.
pub record Env : Type 0 where
  pub render : Dict StepResult → PipelineStep → Outcome (Dict String)
  pub executor_for : String → Outcome (ℕ → PipelineStep → Outcome StepResult)
  pub sink : StepEvent → Option String

unfoldable pub backoff_delay : Backoff → ℕ → ℕ → ℕ → ℕ
backoff_delay fixed attempt initial_delay max_delay = min initial_delay max_delay
backoff_delay linear attempt initial_delay max_delay = min (initial_delay * attempt) max_delay
backoff_delay exponential attempt initial_delay max_delay =
    min (initial_delay * 2 ^ (attempt - 1)) max_delay

abbrev pub failed_result : String → StepResult
failed_result message = record { status = failed; outputs = []; error_message = some message }

-- The guarded lookup and call of the executor.
unfoldable pub run_executor : Env → PipelineStep → ℕ → StepResult
run_executor env step attempt = elim (env.executor_for step.type) [
  | raised e ↦ failed_result ("step launch failed: " <> e)
  | returned execute ↦ elim (execute attempt step) [
    | raised e ↦ failed_result ("step launch failed: " <> e)
    | returned result ↦ result
  ]
]

-- An attempt: what it returns or raises, with the calls that it made.
abbrev pub AttemptRan : Type 0
AttemptRan = Outcome StepResult × List StepEvent

unfoldable pub launch_step : Env → PipelineStep → Dict StepResult → ℕ → AttemptRan
launch_step env step step_results attempt = elim (env.render step_results step) [
  | raised e ↦ (returned (failed_result e), [])
  | returned rendered ↦
      let ready = record step { jinja_vars = rendered } in
      let result = run_executor env ready attempt in
      let started = step_started ready attempt in
      let finished = step_finished ready result attempt in
      elim (env.sink started) [
        | some e ↦ (raised e, started ∷ [])
        | none ↦ elim (env.sink finished) [
          | some e ↦ (raised e, started ∷ finished ∷ [])
          | none ↦ (returned result, started ∷ finished ∷ [])
        ]
      ]
]

abbrev pub is_success : StepStatus → Bool
is_success succeeded = true
is_success failed = false
is_success skipped = false

-- An exception leaves the loop over the attempts, and so does a success.
abbrev pub leaves_loop : Outcome StepResult → Bool
leaves_loop (raised e) = true
leaves_loop (returned result) = is_success result.status

-- The loop over the attempts: `attempt` is the next one and `left` follow it.
unfoldable pub attempt_loop : (ℕ → AttemptRan) → FailureMode → ℕ → ℕ → AttemptRan
attempt_loop launch fm zero attempt = launch attempt
attempt_loop launch fm (suc left) attempt =
    let now = launch attempt in
    let rest = attempt_loop launch fm left (suc attempt) in
    let delay = backoff_delay fm.backoff attempt fm.initial_delay fm.max_delay in
    if leaves_loop now.0 then now else (rest.0, now.1 ++ (slept delay ∷ rest.1))

unfoldable pub attempts_of : FailureMode → ℕ
attempts_of fm =
    max
      (elim fm.mode [
        | retry ↦ fm.max_attempts
        | fail ↦ 1
        | warn ↦ 1
        | continue ↦ 1
        | skip_downstream ↦ 1
      ])
      1

unfoldable pub run_step_with_retry : Env → PipelineStep → Dict StepResult → AttemptRan
run_step_with_retry env step step_results =
    attempt_loop (launch_step env step step_results) step.failure_mode
      (attempts_of step.failure_mode - 1) 1

-- `calls` are the hooks of each step that ran.
pub record Walk : Type 0 where
  pub state : RunState
  pub outputs : Dict (Dict String)
  pub step_results : Dict StepResult
  pub calls : Dict (List StepEvent)

abbrev pub initial_walk : Walk
initial_walk = record { state = initial_state; outputs = []; step_results = []; calls = [] }

-- step_results.setdefault(id, StepResult.skipped()) for each id
unfoldable pub surface_skipped : List String → Dict StepResult → Dict StepResult
surface_skipped [] d = d
surface_skipped (id ∷ ids) d =
    surface_skipped ids (if contains (keys d) id then d else insert id skipped_result d)

-- One turn of the loop over the wave's results.
unfoldable pub record_result :
    PipelineDag → PipelineStep → StepResult × List StepEvent → Walk → Walk
record_result dag step ran w =
    let state = apply_failure_mode step ran.0 dag w.state in
    record {
      state = state;
      outputs =
          if is_success ran.0.status then insert step.id ran.0.outputs w.outputs else w.outputs;
      step_results =
          surface_skipped (without state.skipped_ids w.state.skipped_ids)
            (insert step.id ran.0 w.step_results);
      calls = insert step.id ran.1 w.calls;
    }

-- Every step of the wave runs on the results `before` it; none when one of them raises, and then
-- `gather` raises and no result of the wave is recorded.
unfoldable pub run_wave :
    Env → PipelineDag → List PipelineStep → Dict StepResult → Walk → Option Walk
unfolding record_result
run_wave env dag [] before w = some w
run_wave env dag (step ∷ wave) before w =
    let ran = run_step_with_retry env step before in
    elim ran.0 [
      | raised e ↦ none
      | returned result ↦ run_wave env dag wave before (record_result dag step (result, ran.1) w)
    ]

-- How the walk ends. Which of a wave's exceptions `gather` raises is left out.
pub data Ended (A : Type 0) : Type 0 where
  out_of_fuel hook_raised : Ended A
  ended : A → Ended A

-- The `while True` loop.
unfoldable pub walk_loop : ℕ → Env → PipelineDag → ℕ → Walk → Ended Walk
walk_loop zero env dag slots w = out_of_fuel
walk_loop (suc fuel) env dag slots w =
    let ready = ready_steps dag w.state.completed_ids w.state.failed_ids w.state.skipped_ids in
    let next : Ended Walk = elim (run_wave env dag (take slots ready) w.step_results w) [
      | none ↦ hook_raised
      | some after ↦ walk_loop fuel env dag slots after
    ] in
    if w.state.halted then ended w else elim ready [ [] ↦ ended w | ◌∷◌ s rest ↦ next ]

pub record RunResult : Type 0 where
  pub status : RunStatus
  pub completed : List String
  pub failed_steps : List String
  pub skipped_steps : List String
  pub result_outputs : Dict (Dict String)
  pub result_warnings : List (String × String)

-- RunResult.from_run_state
unfoldable pub from_run_state : RunState → Dict (Dict String) → RunResult
from_run_state state outputs = record {
  status = derive_run_status state;
  completed = state.completed_ids;
  failed_steps = state.failed_ids;
  skipped_steps = state.skipped_ids;
  result_outputs = outputs;
  result_warnings = state.warnings;
}

unfoldable pub result_of : Ended Walk → Ended RunResult
result_of out_of_fuel = out_of_fuel
result_of hook_raised = hook_raised
result_of (ended w) = ended (from_run_state w.state w.outputs)

-- The graph is that of `build_dag`, whose error ends the call before the loop.
-- Each wave resolves a step when there is a slot, so one turn for each step and one more are enough.
unfoldable pub execute_pipeline : Env → PipelineDag → ℕ → Ended RunResult
unfolding result_of
execute_pipeline env dag slots =
    result_of (walk_loop (suc (size dag.topological_order)) env dag slots initial_walk)
