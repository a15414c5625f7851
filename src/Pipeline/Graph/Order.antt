-- ===== src/Pipeline/Graph/Order.antt =====
-- The steps that the topological order names (src/carve/runtime/pipeline_dag.py).
use mathlib.Core.Path.{subst}
use carve.Common.{
  String, true, List, [], ◌∷◌, ◌++◌, string_eq, nat_eq, contains, ◌≡◌, refl, ap, arith, inl, inr,
}
use carve.Common.Dict.{Dict, keys}
use carve.Common.Result.{Fallible-cases}
use carve.Pipeline.Step.{PipelineStep}
use carve.Pipeline.Dag.{
  index_steps, index_deps, Result, ok, err, ◌>>=◌, Colours, validate_no_cycles, size,
}
use carve.Pipeline.Graph.{
  PipelineDag, dependents_of, declaration_index, sorted_by, indegrees, free_ids,
  compute_topological_order, build_dag, ready_steps,
}
use carve.Pipeline.Graph.Ready.{HoldsOrder, ids_of, is_ready, pick, ready_steps-ids}
use carve.Pipeline.Graph.Members.{
  AllIn, Holds, index_steps-Holds, insert_all-members, free_ids-members, dependents_of-Within,
  kahn-AllIn,
}

HoldsOrder-members :
    (dag : PipelineDag) (ids : List String)
    → ((x : String) → contains ids x ≡ true → Holds dag.steps_by_id x)
    → HoldsOrder dag ids
unfolding HoldsOrder
HoldsOrder-members dag [] h = tt
HoldsOrder-members dag (id ∷ ids) h =
    (h id (ground arith), HoldsOrder-members dag ids (λ x m. h x (ground arith)))

pub compute_topological_order-AllIn :
    (steps : List PipelineStep) (deps : Dict (List String))
    → AllIn (contains (keys deps)) (compute_topological_order steps deps)
unfolding compute_topological_order sorted_by
compute_topological_order-AllIn steps deps =
    let index = declaration_index steps 0 [] in
    let p = contains (keys deps) in
    kahn-AllIn p (size deps) (dependents_of deps) index
      (sorted_by (free_ids (indegrees deps)) index) (indegrees deps)
      (dependents_of-Within p deps (λ x m. m))
      (λ x m.
        ground (
          arith,
          insert_all-members [] (free_ids (indegrees deps)) index x,
          free_ids-members deps x,
        ))

bind_ok :
    (r : Result Colours) (built dag : PipelineDag) → (r >>= λ c. ok built) ≡ ok dag → built ≡ dag
bind_ok (ok c) built dag e = ground arith
bind_ok (err x) built dag e = cc

pub build_dag-deps :
    (steps : List PipelineStep) (dag : PipelineDag)
    → build_dag steps ≡ ok dag
    → index_deps steps [] ≡ dag.deps
unfolding build_dag
build_dag-deps steps dag e =
    let deps = index_deps steps [] in
    let built : PipelineDag = record {
      steps_by_id = index_steps steps [];
      deps = deps;
      topological_order = compute_topological_order steps deps;
    } in
    ap (λ d. d.deps) (bind_ok (validate_no_cycles deps) built dag e)

-- A graph that is built holds the step of each id in its order.
pub build_dag-HoldsOrder :
    (steps : List PipelineStep) (dag : PipelineDag)
    → build_dag steps ≡ ok dag
    → HoldsOrder dag dag.topological_order
unfolding build_dag keys
build_dag-HoldsOrder steps dag e =
    let deps = index_deps steps [] in
    let order = compute_topological_order steps deps in
    let built : PipelineDag = record {
      steps_by_id = index_steps steps [];
      deps = deps;
      topological_order = order;
    } in
    subst (λ d. HoldsOrder d d.topological_order) (bind_ok (validate_no_cycles deps) built dag e)
      (HoldsOrder-members built order (λ x m.
        index_steps-Holds steps [] [] x (λ y. refl) (λ n. ground arith)
          (compute_topological_order-AllIn steps deps x m)))

-- In a graph that is built, the ids of the ready steps are, in topological order, those that are
-- not resolved and whose dependencies are all completed, failed or skipped.
pub ready_steps-exact :
    (steps : List PipelineStep) (dag : PipelineDag) (completed failed skipped : List String)
    → build_dag steps ≡ ok dag
    → ids_of (ready_steps dag completed failed skipped)
      ≡ pick (is_ready dag (completed ++ failed ++ skipped)) dag.topological_order
ready_steps-exact steps dag completed failed skipped e =
    ready_steps-ids dag completed failed skipped (build_dag-HoldsOrder steps dag e)

-- What a graph that is built is made of.
pub record Built (steps : List PipelineStep) (dag : PipelineDag) : Type 0 where
  pub deps_same : index_deps steps [] ≡ dag.deps
  pub order_same : compute_topological_order steps (index_deps steps []) ≡ dag.topological_order
  pub colours : Colours
  pub passes : validate_no_cycles (index_deps steps []) ≡ ok colours

pub build_dag-Built :
    (steps : List PipelineStep) (dag : PipelineDag) → build_dag steps ≡ ok dag → Built steps dag
unfolding build_dag
build_dag-Built steps dag e =
    let deps = index_deps steps [] in
    let built : PipelineDag = record {
      steps_by_id = index_steps steps [];
      deps = deps;
      topological_order = compute_topological_order steps deps;
    } in
    let same = bind_ok (validate_no_cycles deps) built dag e in
    elim (Fallible-cases (validate_no_cycles deps)) [
      | inl (x, fails) ↦ absurd (cc (rw fails at e))
      | inr (c, passes) ↦ record {
        deps_same = ap (λ d. d.deps) same;
        order_same = ap (λ d. d.topological_order) same;
        colours = c;
        passes = passes;
      }
    ]
