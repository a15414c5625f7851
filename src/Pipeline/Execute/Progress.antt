-- ===== src/Pipeline/Execute/Progress.antt =====
-- What one result resolves, and the steps that are left (src/carve/runtime/failure_modes.py).
use carve.Common.{
  ◌≤◌, ◌<◌, String, true, false, Option, List, [], ◌∷◌, ◌++◌, ◌||◌, ◌==◌, string_eq, contains, ◌≡◌,
  arith,
}
use carve.Common.Names.{contains-append, open_count}
use carve.Pipeline.Step.{
  PipelineStep, StepStatus, succeeded, failed, skipped, StepResult, Mode, fail, warn, continue,
  retry, skip_downstream,
}
use carve.Pipeline.Dag.{size}
use carve.Pipeline.Graph.{PipelineDag, downstream_of}
use carve.Pipeline.FailureModes.{RunState, apply_failure_mode, apply_status, fail_in_mode, tolerate}

-- completed | failed | skipped
abbrev pub resolved : RunState → List String
resolved s = s.completed_ids ++ s.failed_ids ++ s.skipped_ids

contains-resolved :
    (c f k : List String) (x : String)
    → contains (c ++ f ++ k) x ≡ (contains c x || contains f x || contains k x)
contains-resolved c f k x = ground (arith, contains-append (c ++ f) k x, contains-append c f x)

resolves_completed :
    (c f k : List String) (id x : String)
    → (contains (c ++ f ++ k) x || x == id) ≡ true
    → contains ((id ∷ c) ++ f ++ k) x ≡ true
resolves_completed c f k id x h =
    ground (arith, contains-resolved c f k x, contains-resolved (id ∷ c) f k x)

resolves_failed :
    (c f k : List String) (id x : String)
    → (contains (c ++ f ++ k) x || x == id) ≡ true
    → contains (c ++ (id ∷ f) ++ k) x ≡ true
resolves_failed c f k id x h =
    ground (arith, contains-resolved c f k x, contains-resolved c (id ∷ f) k x)

resolves_itself :
    (c f k : List String) (id x : String)
    → (contains (c ++ f ++ k) x || x == id) ≡ true
    → contains (c ++ f ++ (id ∷ k)) x ≡ true
resolves_itself c f k id x h =
    ground (arith, contains-resolved c f k x, contains-resolved c f (id ∷ k) x)

resolves_skipped :
    (c f k below : List String) (id x : String)
    → (contains (c ++ f ++ k) x || x == id) ≡ true
    → contains (c ++ (id ∷ f) ++ (below ++ k)) x ≡ true
resolves_skipped c f k below id x h = ground (
  arith,
  contains-resolved c f k x,
  contains-resolved c (id ∷ f) (below ++ k) x,
  contains-append below k x,
)

fail_in_mode-resolves :
    (mode : Mode) (id : String) (message : Option String) (dag : PipelineDag) (s : RunState)
    (x : String)
    → (contains (resolved s) x || x == id) ≡ true
    → contains (resolved (fail_in_mode mode id message dag s)) x ≡ true
unfolding fail_in_mode tolerate
fail_in_mode-resolves fail id message dag s x h =
    resolves_failed s.completed_ids s.failed_ids s.skipped_ids id x h
fail_in_mode-resolves retry id message dag s x h =
    resolves_failed s.completed_ids s.failed_ids s.skipped_ids id x h
fail_in_mode-resolves warn id message dag s x h =
    resolves_failed s.completed_ids s.failed_ids s.skipped_ids id x h
fail_in_mode-resolves continue id message dag s x h =
    resolves_failed s.completed_ids s.failed_ids s.skipped_ids id x h
fail_in_mode-resolves skip_downstream id message dag s x h =
    resolves_skipped s.completed_ids s.failed_ids s.skipped_ids (downstream_of dag id) id x h

apply_status-resolves :
    (status : StepStatus) (step : PipelineStep) (result : StepResult) (dag : PipelineDag)
    (s : RunState) (x : String)
    → (contains (resolved s) x || x == step.id) ≡ true
    → contains (resolved (apply_status status step result dag s)) x ≡ true
unfolding apply_status
apply_status-resolves succeeded step result dag s x h =
    resolves_completed s.completed_ids s.failed_ids s.skipped_ids step.id x h
apply_status-resolves skipped step result dag s x h =
    resolves_itself s.completed_ids s.failed_ids s.skipped_ids step.id x h
apply_status-resolves failed step result dag s x h =
    fail_in_mode-resolves step.failure_mode.mode step.id result.error_message dag s x h

pub apply_failure_mode-resolves :
    (step : PipelineStep) (result : StepResult) (dag : PipelineDag) (s : RunState) (x : String)
    → (contains (resolved s) x || x == step.id) ≡ true
    → contains (resolved (apply_failure_mode step result dag s)) x ≡ true
unfolding apply_failure_mode
apply_failure_mode-resolves step result dag s x h =
    apply_status-resolves result.status step result dag s x h

pub open_count-bound : (done xs : List String) → open_count done xs ≤ size xs
unfolding open_count
open_count-bound done [] = omega arith
open_count-bound done (x ∷ xs) = ground (arith, open_count-bound done xs)

abbrev Grows : List String → List String → Type 0
Grows before after = (x : String) → contains before x ≡ true → contains after x ≡ true

open_count_mono :
    (before after xs : List String)
    → Grows before after
    → open_count after xs ≤ open_count before xs
unfolding open_count
open_count_mono before after [] g = omega arith
open_count_mono before after (x ∷ xs) g = ground (arith, open_count_mono before after xs g, g x)

pub open_count-drops :
    (before after xs : List String) (y : String)
    → Grows before after
    → contains xs y ≡ true
    → contains before y ≡ false
    → contains after y ≡ true
    → open_count after xs < open_count before xs
unfolding open_count
open_count-drops before after [] y g m f t = cc
open_count-drops before after (x ∷ xs) y g m f t =
    ground (arith, open_count_mono before after xs g, g x, open_count-drops before after xs y g)
