-- ===== src/Pipeline/FailureModes.antt =====
-- The failure modes and the status of a run (src/carve/runtime/failure_modes.py). The sets of a
-- run's state are lists read by membership.
use carve.Common.{String, Bool, true, false, Option, none, some, List, [], ◌∷◌, ◌++◌, if◌then◌else◌}
use carve.Pipeline.Step.{
  Mode, fail, warn, continue, retry, skip_downstream, PipelineStep, StepStatus, succeeded, failed,
  skipped, StepResult,
}
use carve.Pipeline.Graph.{PipelineDag, downstream_of}

-- A warning names the step and its error message.
pub record RunState : Type 0 where
  pub completed_ids : List String
  pub failed_ids : List String
  pub skipped_ids : List String
  pub halted : Bool
  pub tolerated_failures : List String
  pub warnings : List (String × String)

abbrev pub initial_state : RunState
initial_state = record {
  completed_ids = [];
  failed_ids = [];
  skipped_ids = [];
  halted = false;
  tolerated_failures = [];
  warnings = [];
}

pub data RunStatus : Type 0 where
  run_succeeded run_failed run_partial : RunStatus

-- result.error_message or "(no error message)"
unfoldable pub message_of : Option String → String
message_of none = "(no error message)"
message_of (some String.[]) = "(no error message)"
message_of (some (String.◌∷◌ c s)) = String.◌∷◌ c s

-- The step failed, and the run goes on.
unfoldable pub tolerate : String → RunState → RunState
tolerate id state = record state {
  failed_ids = id ∷ state.failed_ids;
  tolerated_failures = state.tolerated_failures ++ (id ∷ []);
}

unfoldable pub fail_in_mode : Mode → String → Option String → PipelineDag → RunState → RunState
fail_in_mode fail id message dag state = record state {
  failed_ids = id ∷ state.failed_ids;
  halted = true;
}
fail_in_mode retry id message dag state = record state {
  failed_ids = id ∷ state.failed_ids;
  halted = true;
}
fail_in_mode warn id message dag state = record (tolerate id state) {
  warnings = state.warnings ++ ((id, message_of message) ∷ []);
}
fail_in_mode continue id message dag state = tolerate id state
fail_in_mode skip_downstream id message dag state = record (tolerate id state) {
  skipped_ids = downstream_of dag id ++ state.skipped_ids;
}

unfoldable pub apply_status :
    StepStatus → PipelineStep → StepResult → PipelineDag → RunState → RunState
unfolding fail_in_mode
apply_status succeeded step result dag state = record state {
  completed_ids = step.id ∷ state.completed_ids;
}
apply_status skipped step result dag state = record state {
  skipped_ids = step.id ∷ state.skipped_ids;
}
apply_status failed step result dag state =
    fail_in_mode step.failure_mode.mode step.id result.error_message dag state

unfoldable pub apply_failure_mode : PipelineStep → StepResult → PipelineDag → RunState → RunState
apply_failure_mode step result dag state = apply_status result.status step result dag state

abbrev pub is_empty {ℓ} : {A : Type ℓ} → List A → Bool
is_empty [] = true
is_empty (x ∷ xs) = false

unfoldable pub derive_run_status : RunState → RunStatus
derive_run_status state =
    if state.halted
    then run_failed
    else if is_empty state.tolerated_failures
    then if is_empty state.skipped_ids then run_succeeded else run_partial
    else run_partial
