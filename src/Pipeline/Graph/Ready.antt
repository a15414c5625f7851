-- ===== src/Pipeline/Graph/Ready.antt =====
-- Which steps are ready (src/carve/runtime/pipeline_dag.py).
use carve.Common.{
  String, Bool, true, some, List, [], ◌∷◌, ◌++◌, not, ◌&&◌, string_eq, if◌then◌else◌, contains, ◌≡◌,
  refl, arith,
}
use carve.Common.Names.{subset}
use carve.Common.Dict.{lookup}
use carve.Pipeline.Step.{PipelineStep}
use carve.Pipeline.Dag.{deps_of}
use carve.Pipeline.Graph.{PipelineDag, ready_in, ready_steps}

-- The ids of some steps.
unfoldable pub ids_of : List PipelineStep → List String
ids_of [] = []
ids_of (s ∷ steps) = s.id ∷ ids_of steps

-- Each id of the order is that of its step.
unfoldable pub HoldsOrder : PipelineDag → List String → Type 0
HoldsOrder dag [] = Unit
HoldsOrder dag (id ∷ ids) =
    ((s : PipelineStep) × (lookup id dag.steps_by_id ≡ some s) × (s.id ≡ id)) × HoldsOrder dag ids

-- The step is not resolved, and all its dependencies are.
unfoldable pub is_ready : PipelineDag → List String → String → Bool
is_ready dag resolved id = not (contains resolved id) && subset (deps_of dag.deps id) resolved

unfoldable pub pick : (String → Bool) → List String → List String
pick p [] = []
pick p (x ∷ xs) = let rest = pick p xs in if p x then x ∷ rest else rest

pub pick-holds :
    (p : String → Bool) (xs : List String) (x : String)
    → contains (pick p xs) x ≡ true
    → (contains xs x ≡ true) × (p x ≡ true)
unfolding pick
pick-holds p [] x m = cc
pick-holds p (y ∷ xs) x m = ground (arith, pick-holds p xs x)

ready_in-ids :
    (dag : PipelineDag) (resolved ids : List String)
    → HoldsOrder dag ids
    → ids_of (ready_in dag resolved ids) ≡ pick (is_ready dag resolved) ids
unfolding ready_in pick is_ready ids_of HoldsOrder
ready_in-ids dag resolved [] h = refl
ready_in-ids dag resolved (id ∷ ids) ((s, e, same), h) =
    rw (e) (ground (arith, ready_in-ids dag resolved ids h))

pub ready_steps-ids :
    (dag : PipelineDag) (completed failed skipped : List String)
    → HoldsOrder dag dag.topological_order
    → ids_of (ready_steps dag completed failed skipped)
      ≡ pick (is_ready dag (completed ++ failed ++ skipped)) dag.topological_order
unfolding ready_steps
ready_steps-ids dag completed failed skipped h =
    ready_in-ids dag (completed ++ failed ++ skipped) dag.topological_order h
