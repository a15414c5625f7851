-- ===== src/Pipeline/Step.antt =====
-- The parts of a pipeline's steps that the walk reads
-- (src/carve/core/config/pipeline_schema.py), and the results of steps
-- (src/carve/runtime/step_executor.py). A step's type, its variables and its outputs are texts.
use carve.Common.{ℕ, String, Option, none, List, []}
use carve.Common.Dict.{Dict}

pub data Mode : Type 0 where
  fail warn continue retry skip_downstream : Mode

pub data Backoff : Type 0 where
  exponential linear fixed : Backoff

-- Delays are whole units of a fixed fraction of a second.
pub record FailureMode : Type 0 where
  pub mode : Mode
  pub max_attempts : ℕ
  pub backoff : Backoff
  pub initial_delay : ℕ
  pub max_delay : ℕ

pub record PipelineStep : Type 0 where
  pub id : String
  pub type : String
  pub depends_on : List String
  pub failure_mode : FailureMode
  pub jinja_vars : Dict String

pub data StepStatus : Type 0 where
  succeeded failed skipped : StepStatus

pub record StepResult : Type 0 where
  pub status : StepStatus
  pub outputs : Dict String
  pub error_message : Option String

-- StepResult.skipped()
abbrev pub skipped_result : StepResult
skipped_result = record { status = skipped; outputs = []; error_message = none }
