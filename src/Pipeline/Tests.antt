-- ===== src/Pipeline/Tests.antt =====
-- A pipeline of four steps, its graph, and runs of it.
use carve.Common.{
  Option, ℕ, String, true, none, some, List, [], ◌∷◌, ◌++◌, ◌≡◌, ◌≢◌, ◌↔◌, ◌⊎◌, refl, string_eq,
  nat_eq, contains, if◌then◌else◌, arith, ◌&&◌, ◌||◌, ◌==◌,
}
use carve.Common.Dict.{lookup, insert, keys}
use carve.Common.Names.{subset, without}
use carve.Common.Slices.{take}
use carve.Pipeline.Step.{
  Mode, fail, warn, retry, skip_downstream, exponential, FailureMode, PipelineStep, succeeded,
  failed, StepResult,
}
use carve.Pipeline.Dag.{
  ok, err, cycle, no_fuel, Colour, Colours, set_of, index_steps, index_deps, deps_of, all_unvisited,
  visit_deps, visit, visit_all, validate_no_cycles,
}
use carve.Pipeline.Dag.Acyclic.{Grounded, validate_sound}
use carve.Pipeline.Dag.Depth.{validate_ends}
use carve.Pipeline.Graph.{
  PipelineDag, append_to, no_dependents, add_edges, add_all_edges, dependents_of, index_of,
  declaration_index, insert_sorted, insert_all, sorted_by, indegrees, free_ids, lower_all, kahn,
  compute_topological_order, build_dag, ready_in, ready_steps, reverse_onto, downstream_loop,
  edge_count, downstream_of,
}
use carve.Pipeline.Graph.Ready.{ids_of, is_ready, pick}
use carve.Pipeline.Graph.Order.{ready_steps-exact}
use carve.Pipeline.Graph.Times.{times}
use carve.Pipeline.Graph.Kahn.{Ordered}
use carve.Pipeline.Graph.Complete.{topological_order-Ordered}
use carve.Pipeline.Graph.Downstream.{DependsOn, downstream_of-exact}
use carve.Pipeline.FailureModes.{
  run_succeeded, run_failed, run_partial, derive_run_status, apply_failure_mode, apply_status,
  fail_in_mode, tolerate,
}
use carve.Pipeline.Execute.{
  Env, StepEvent, step_finished, hook_raised, ended, returned, backoff_delay, run_executor,
  launch_step, attempt_loop, attempts_of, run_step_with_retry, surface_skipped, record_result,
  run_wave, walk_loop, RunResult, from_run_state, result_of, execute_pipeline,
}
use carve.Pipeline.Execute.Retry.{HookRaises}
use carve.Pipeline.Execute.Finishes.{execute_pipeline-resolves}
use carve.Pipeline.Execute.Status.{execute_pipeline-succeeded}

abbrev in_mode : Mode → ℕ → FailureMode
in_mode mode attempts = record {
  mode = mode;
  max_attempts = attempts;
  backoff = exponential;
  initial_delay = 5;
  max_delay = 60;
}

abbrev step : String → List String → FailureMode → PipelineStep
step id deps mode = record {
  id = id;
  type = "sql";
  depends_on = deps;
  failure_mode = mode;
  jinja_vars = [];
}

-- Two branches that meet: the last step is declared first.
abbrev steps : List PipelineStep
steps =
    step "report" ("left" ∷ "right" ∷ []) (in_mode fail 1)
    ∷ step "load" [] (in_mode retry 3)
    ∷ step "left" ("load" ∷ []) (in_mode warn 1)
    ∷ step "right" ("load" ∷ []) (in_mode skip_downstream 1)
    ∷ []

abbrev dag : PipelineDag
dag = record {
  steps_by_id = index_steps steps [];
  deps = index_deps steps [];
  topological_order = "load" ∷ "left" ∷ "right" ∷ "report" ∷ [];
}

dag-built : build_dag steps ≡ ok dag
unfolding build_dag validate_no_cycles visit_all visit visit_deps all_unvisited set_of index_steps
    index_deps deps_of lookup insert keys dependents_of add_all_edges add_edges append_to
    no_dependents compute_topological_order declaration_index kahn lower_all index_of insert_sorted
    insert_all sorted_by indegrees free_ids string_eq nat_eq
dag-built = refl

abbrev all_done : Colours
all_done =
    ("report", Colour.done)
    ∷ ("load", Colour.done)
    ∷ ("left", Colour.done)
    ∷ ("right", Colour.done)
    ∷ []

dag-valid : validate_no_cycles dag.deps ≡ ok all_done
unfolding validate_no_cycles visit_all visit visit_deps all_unvisited set_of index_deps deps_of
    lookup insert keys string_eq
dag-valid = refl

report-known : contains (keys dag.deps) "report" ≡ true
unfolding keys index_deps insert string_eq
report-known = refl

load-known : contains (keys dag.deps) "load" ≡ true
unfolding keys index_deps insert string_eq
load-known = refl

validate_sound_example : Grounded dag.deps "report"
validate_sound_example = validate_sound dag.deps all_done "report" dag-valid report-known

validate_ends_example : validate_no_cycles dag.deps ≢ err no_fuel
validate_ends_example = validate_ends dag.deps

cycle_found :
    build_dag (step "a" ("b" ∷ []) (in_mode fail 1) ∷ step "b" ("a" ∷ []) (in_mode fail 1) ∷ [])
    ≡ err (cycle "a")
unfolding build_dag validate_no_cycles visit_all visit visit_deps all_unvisited set_of index_deps
    deps_of lookup insert keys string_eq
cycle_found = refl

ready_steps-exact_example :
    ids_of (ready_steps dag ("load" ∷ []) ("right" ∷ []) [])
    ≡ pick (is_ready dag (("load" ∷ []) ++ ("right" ∷ []) ++ [])) dag.topological_order
ready_steps-exact_example = ready_steps-exact steps dag ("load" ∷ []) ("right" ∷ []) [] dag-built

downstream_of-exact_example :
    (contains (downstream_of dag "load") "report" ≡ true) ↔ DependsOn dag.deps "load" "report"
downstream_of-exact_example = downstream_of-exact steps dag "load" "report" dag-built load-known

-- The load succeeds at its second attempt; the step `right` fails.
abbrev answer : ℕ → PipelineStep → StepResult
answer attempt s =
    if s.id == "right" || (s.id == "load" && attempt == 1)
    then record { status = failed; outputs = []; error_message = none }
    else record { status = succeeded; outputs = ("rows", s.id) ∷ []; error_message = none }

abbrev env : Env
env = record {
  render = λ results s. returned s.jinja_vars;
  executor_for = λ type. returned (λ attempt s. returned (answer attempt s));
  sink = λ call. none;
}

abbrev load : PipelineStep
load = step "load" [] (in_mode retry 3)

abbrev outcome : RunResult
outcome = record {
  status = run_partial;
  completed = "left" ∷ "load" ∷ [];
  failed_steps = "right" ∷ [];
  skipped_steps = "report" ∷ [];
  result_outputs = ("load", ("rows", "load") ∷ []) ∷ ("left", ("rows", "left") ∷ []) ∷ [];
  result_warnings = [];
}

dag-runs : execute_pipeline env dag 2 ≡ ended outcome
unfolding execute_pipeline result_of from_run_state walk_loop run_wave record_result
    run_step_with_retry attempt_loop attempts_of launch_step run_executor backoff_delay
    apply_failure_mode apply_status fail_in_mode tolerate surface_skipped without take ready_steps
    ready_in subset downstream_of downstream_loop reverse_onto edge_count dependents_of
    add_all_edges add_edges append_to no_dependents derive_run_status index_steps index_deps set_of
    deps_of lookup insert keys string_eq nat_eq
dag-runs = refl

-- A sink that cannot store the end of a step.
abbrev failing_sink : StepEvent → Option String
failing_sink (step_finished s result attempt) = some "database is locked"
failing_sink _ = none

hook_escapes : execute_pipeline (record env { sink = failing_sink }) dag 2 ≡ hook_raised
unfolding execute_pipeline result_of walk_loop run_wave record_result run_step_with_retry
    attempt_loop attempts_of launch_step run_executor ready_steps ready_in subset take lookup
    deps_of add_all_edges add_edges append_to no_dependents index_steps index_deps set_of insert
    keys string_eq nat_eq
hook_escapes = refl

execute_pipeline-succeeded_example :
    (outcome.status ≡ run_succeeded) ↔ ((outcome.failed_steps ≡ []) × (outcome.skipped_steps ≡ []))
execute_pipeline-succeeded_example = execute_pipeline-succeeded env dag 2 outcome dag-runs

topological_order-Ordered_example :
    ((x : String) → times x dag.topological_order ≡ (if contains (ids_of steps) x then 1 else 0))
    × Ordered dag.deps [] dag.topological_order
topological_order-Ordered_example = topological_order-Ordered steps dag dag-built

execute_pipeline-resolves_example :
    ((execute_pipeline env dag 2 ≡ hook_raised) × HookRaises env)
    ⊎ ((r : RunResult) × (execute_pipeline env dag 2 ≡ ended r)
        × ((r.status ≡ run_failed)
            ⊎ ((x : String)
                → contains (ids_of steps) x ≡ true
                → contains (r.completed ++ r.failed_steps ++ r.skipped_steps) x ≡ true)))
execute_pipeline-resolves_example =
    execute_pipeline-resolves steps dag dag-built env 2 (omega arith)
