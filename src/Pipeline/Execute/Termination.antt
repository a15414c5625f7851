-- ===== src/Pipeline/Execute/Termination.antt =====
-- The walk of `execute_pipeline` as a loop (src/carve/runtime/execute_pipeline.py).
use carve.Common.{
  ℕ, zero, suc, ◌≤◌, ◌<◌, String, Bool, true, false, none, some, List, [], ◌∷◌, not, ◌&&◌, ◌||◌,
  ◌==◌, string_eq, contains, ◌≡◌, refl, ap, arith, Bool-cases, or_left, inl, inr, ◌⊎◌,
}
use mathlib.Core.Path.{subst}
use carve.Common.Dict.{Dict}
use carve.Common.Names.{open_count}
use carve.Common.Slices.{take}
use carve.Pipeline.Step.{PipelineStep, StepResult}
use carve.Pipeline.Dag.{size, ok}
use carve.Pipeline.Graph.Order.{build_dag-HoldsOrder}
use carve.Pipeline.Graph.{PipelineDag, ready_steps, build_dag}
use carve.Pipeline.Graph.Ready.{HoldsOrder, ids_of, is_ready, pick-holds, ready_steps-ids}
use carve.Pipeline.FailureModes.{RunState}
use carve.Pipeline.Execute.{
  Env, Walk, initial_walk, record_result, run_wave, walk_loop, run_step_with_retry,
  execute_pipeline, from_run_state, result_of, StepEvent, Ended, hook_raised, ended,
}
use carve.Pipeline.Execute.Retry.{HookRaises, step_returns}
use carve.Pipeline.Execute.Progress.{
  resolved, apply_failure_mode-resolves, open_count-bound, open_count-drops,
}

List-cases {ℓ} :
    {A : Type ℓ} (xs : List A) → (xs ≡ []) ⊎ ((x : A) × (rest : List A) × (xs ≡ x ∷ rest))
List-cases [] = inl refl
List-cases (x ∷ xs) = inr (x, xs, refl)

or_shift :
    (a b c d : Bool) → ((a || b) ≡ true → d ≡ true) → (a || (b || c)) ≡ true → (d || c) ≡ true
or_shift a b c d f h = ground arith

-- What the results so far and the steps of a wave resolve, the wave resolves.
abbrev WaveGrows : Walk → List PipelineStep → Walk → Type 0
WaveGrows w wave end =
    (x : String)
    → (contains (resolved w.state) x || contains (ids_of wave) x) ≡ true
    → contains (resolved end.state) x ≡ true

grows_by :
    (dag : PipelineDag) (step : PipelineStep) (wave : List PipelineStep) (result : StepResult)
    (calls : List StepEvent) (w end : Walk)
    → WaveGrows (record_result dag step (result, calls) w) wave end
    → WaveGrows w (step ∷ wave) end
unfolding ids_of record_result
grows_by dag step wave result calls w end rest x h = rest x (
    or_shift (contains (resolved w.state) x) (x == step.id) (contains (ids_of wave) x) _
      (apply_failure_mode-resolves step result dag w.state x) h)

-- A wave ends with a hook that raises, or it resolves its steps.
run_wave-ends :
    (env : Env) (dag : PipelineDag) (wave : List PipelineStep) (before : Dict StepResult) (w : Walk)
    → ((run_wave env dag wave before w ≡ none) × HookRaises env)
      ⊎ ((end : Walk) × (run_wave env dag wave before w ≡ some end) × WaveGrows w wave end)
unfolding run_wave ids_of
run_wave-ends env dag [] before w = inr (w, refl, λ x h. ground arith)
run_wave-ends env dag (step ∷ wave) before w = elim (step_returns env step before) [
  | inr (e, bad, hook) ↦ inl (rw (bad, run_wave) refl, hook)
  | inl (result, fine) ↦
      let calls = (run_step_with_retry env step before).1 in
      elim (run_wave-ends env dag wave before (record_result dag step (result, calls) w)) [
        | inl (none_left, hook) ↦ inl (rw (fine, run_wave) none_left, hook)
        | inr (end, e, grows) ↦
            inr (end, rw (fine, run_wave) e, grows_by dag step wave result calls w end grows)
      ]
]

-- The loop is left when the run is halted or when no step is ready.
abbrev pub IsOver : PipelineDag → RunState → Type 0
IsOver dag s = (s.halted ≡ true) ⊎ (ready_steps dag s.completed_ids s.failed_ids s.skipped_ids ≡ [])

own_id :
    (step : PipelineStep) (rest : List PipelineStep)
    → contains (ids_of (step ∷ rest)) step.id ≡ true
unfolding ids_of
own_id step rest = ground arith

and_not_left : (a b : Bool) → (not a && b) ≡ true → a ≡ false
and_not_left a b h = ground arith

or_right : (a b : Bool) → b ≡ true → (a || b) ≡ true
or_right a b h = ground arith

first_ready-open :
    (dag : PipelineDag) (s : RunState) (step : PipelineStep) (rest : List PipelineStep)
    → HoldsOrder dag dag.topological_order
    → ready_steps dag s.completed_ids s.failed_ids s.skipped_ids ≡ step ∷ rest
    → (contains dag.topological_order step.id ≡ true) × (contains (resolved s) step.id ≡ false)
unfolding is_ready
first_ready-open dag s step rest h e =
    let ids = ready_steps-ids dag s.completed_ids s.failed_ids s.skipped_ids h in
    let (place, fresh) =
      pick-holds (is_ready dag (resolved s)) dag.topological_order step.id
        (subst (λ l. contains l step.id ≡ true) ids (rw (e) (own_id step rest))) in
    (place, and_not_left _ _ fresh)

wave_drops :
    (dag : PipelineDag) (slots : ℕ) (w end : Walk) (step : PipelineStep) (rest : List PipelineStep)
    → HoldsOrder dag dag.topological_order
    → 1 ≤ slots
    → ready_steps dag w.state.completed_ids w.state.failed_ids w.state.skipped_ids ≡ step ∷ rest
    → WaveGrows w (take slots (step ∷ rest)) end
    → open_count (resolved end.state) dag.topological_order
      < open_count (resolved w.state) dag.topological_order
unfolding take ids_of
wave_drops dag zero w end step rest h slot e grows = omega arith
wave_drops dag (suc n) w end step rest h slot e grows =
    let (place, fresh) = first_ready-open dag w.state step rest h e in
    open_count-drops _ _ dag.topological_order step.id (λ x m. grows x (or_left _ _ m)) place fresh
      (grows step.id (or_right _ _ (own_id step (take n rest))))

none_below : (n : ℕ) → n < 0 → ⊥
none_below n h = omega arith

-- The walk ends by a hook that raises, or with the run halted or no step ready.
abbrev pub Ends : Env → PipelineDag → Ended Walk → Type 0
Ends env dag o =
    ((o ≡ hook_raised) × HookRaises env) ⊎ ((end : Walk) × (o ≡ ended end) × IsOver dag end.state)

walk_loop-Ends :
    (fuel : ℕ) (env : Env) (dag : PipelineDag) (slots : ℕ) (w : Walk)
    → HoldsOrder dag dag.topological_order
    → 1 ≤ slots
    → open_count (resolved w.state) dag.topological_order < fuel
    → Ends env dag (walk_loop fuel env dag slots w)
unfolding walk_loop
walk_loop-Ends zero env dag slots w h slot few = elim (none_below _ few) [ ]
walk_loop-Ends (suc fuel) env dag slots w h slot few = elim (Bool-cases w.state.halted) [
  | inl halts ↦ inr (w, simp (halts), inl halts)
  | inr runs ↦
      elim (List-cases
        (ready_steps dag w.state.completed_ids w.state.failed_ids w.state.skipped_ids)) [
          | inl none_ready ↦ inr (w, simp (runs, none_ready), inr none_ready)
          | inr (step, rest, e) ↦
              elim (run_wave-ends env dag (take slots (step ∷ rest)) w.step_results w) [
                | inl (bad, hook) ↦ inl (simp (runs, e, bad), hook)
                | inr (after, ran, grows) ↦
                    let less = wave_drops dag slots w after step rest h slot e grows in
                    simp (runs, e, ran)
                      (walk_loop-Ends fuel env dag slots after h slot (omega arith))
              ]
        ]
]

-- On a graph that was built from the pipeline, with a slot at least, the walk ends: a hook of the sink
-- raised, or it returns a result, and at its end the run is halted or no step is ready.
pub execute_pipeline-ends :
    (env : Env) (steps : List PipelineStep) (dag : PipelineDag) (slots : ℕ)
    → build_dag steps ≡ ok dag
    → 1 ≤ slots
    → ((execute_pipeline env dag slots ≡ hook_raised) × HookRaises env)
      ⊎ ((end : Walk) × (execute_pipeline env dag slots
            ≡ ended (from_run_state end.state end.outputs))
          × IsOver dag end.state)
unfolding execute_pipeline result_of
execute_pipeline-ends env steps dag slots built slot =
    let h = build_dag-HoldsOrder steps dag built in
    let order = dag.topological_order in
    let few = open_count-bound (resolved initial_walk.state) order in
    elim (walk_loop-Ends (suc (size order)) env dag slots initial_walk h slot (omega arith)) [
      | inl (e, hook) ↦ inl (ap result_of e, hook)
      | inr (end, e, over) ↦ inr (end, ap result_of e, over)
    ]
