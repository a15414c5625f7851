-- ===== src/Pipeline/Execute/Finishes.antt =====
-- A run that is not stopped reaches every step (src/carve/runtime/execute_pipeline.py).
use carve.Common.{
  ℕ, ◌≤◌, String, true, false, List, [], ◌∷◌, ◌++◌, string_eq, contains, ◌≡◌, refl, sym, arith, inl,
  inr, ◌⊎◌, Bool,
}
use carve.Common.Dict.{keys}
use carve.Common.Names.{subset}
use carve.Pipeline.Step.{PipelineStep}
use carve.Pipeline.Dag.{ok, deps_of}
use carve.Pipeline.Dag.Acyclic.{Grounded, grounded}
use carve.Pipeline.Graph.{PipelineDag, build_dag, ready_steps}
use carve.Pipeline.Graph.Ready.{ids_of, is_ready, pick}
use carve.Pipeline.Graph.Order.{ready_steps-exact}
use carve.Pipeline.Graph.Complete.{built-Grounded, built-keys, built-order}
use carve.Pipeline.FailureModes.{RunState, run_failed, derive_run_status}
use carve.Pipeline.Execute.{Env, RunResult, hook_raised, ended, from_run_state, execute_pipeline}
use carve.Pipeline.Execute.Retry.{HookRaises}
use carve.Pipeline.Execute.Progress.{resolved}
use carve.Pipeline.Execute.Termination.{execute_pipeline-ends}

none_picked :
    (p : String → Bool) (xs : List String) (x : String)
    → pick p xs ≡ []
    → contains xs x ≡ true
    → p x ≡ false
unfolding pick
none_picked p [] x e m = cc
none_picked p (y ∷ xs) x e m = ground (arith, none_picked p xs x)

subset_of_all :
    (a b : List String)
    → ((x : String) → contains a x ≡ true → contains b x ≡ true)
    → subset a b ≡ true
unfolding subset
subset_of_all [] b h = refl
subset_of_all (x ∷ a) b h = ground (arith, h x, subset_of_all a b (λ y m. h y (ground arith)))

module _ (steps : List PipelineStep) (dag : PipelineDag) (e : build_dag steps ≡ ok dag) where
  none_ready :
      (s : RunState)
      → ready_steps dag s.completed_ids s.failed_ids s.skipped_ids ≡ []
      → pick (is_ready dag (resolved s)) dag.topological_order ≡ []
  unfolding ids_of
  none_ready s idle =
      sym (rw idle at (ready_steps-exact steps dag s.completed_ids s.failed_ids s.skipped_ids e))

  -- With no step ready, a step whose chains of dependencies end is resolved.
  stuck_resolves :
      (s : RunState)
      → ready_steps dag s.completed_ids s.failed_ids s.skipped_ids ≡ []
      → (x : String) → Grounded dag.deps x
      → contains (keys dag.deps) x ≡ true
      → contains (resolved s) x ≡ true
  unfolding is_ready
  stuck_resolves s idle x (grounded known below) k =
      let ready_of : subset (deps_of dag.deps x) (resolved s) ≡ true =
        subset_of_all (deps_of dag.deps x) (resolved s)
          (λ d m. stuck_resolves s idle d (below d m) (known d m)) in
      let not_ready : is_ready dag (resolved s) x ≡ false =
        none_picked (is_ready dag (resolved s)) dag.topological_order x (none_ready s idle)
          (built-order steps dag e x (ground (arith, built-keys steps dag e x))) in
      ground (arith, not_ready, ready_of)

  -- A run of a graph that was built, with a slot at least, ends by a hook of the sink that raises, or
  -- it returns a result; the status of the result is `failed`, or every step of the pipeline is
  -- completed, failed or skipped in it.
  pub execute_pipeline-resolves :
      (env : Env) (slots : ℕ)
      → 1 ≤ slots
      → ((execute_pipeline env dag slots ≡ hook_raised) × HookRaises env)
        ⊎ ((r : RunResult) × (execute_pipeline env dag slots ≡ ended r)
            × ((r.status ≡ run_failed)
                ⊎ ((x : String)
                    → contains (ids_of steps) x ≡ true
                    → contains (r.completed ++ r.failed_steps ++ r.skipped_steps) x ≡ true)))
  unfolding from_run_state derive_run_status
  execute_pipeline-resolves env slots slot =
      elim (execute_pipeline-ends env steps dag slots e slot) [
        | inl raises ↦ inl raises
        | inr (end, returns, over) ↦ inr (
          from_run_state end.state end.outputs,
          returns,
          elim over [
            | inl halts ↦ inl (simp (halts) refl)
            | inr idle ↦ inr (λ x m.
                let key : contains (keys dag.deps) x ≡ true =
                  ground (arith, built-keys steps dag e x) in
                stuck_resolves end.state idle x (built-Grounded steps dag e x key) key)
          ],
        )
      ]
