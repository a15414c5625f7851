-- ===== src/Pipeline/Graph.antt =====
-- The stable topological order, readiness and the transitive dependents
-- (src/carve/runtime/pipeline_dag.py).
pub mod Members
pub mod Order
pub mod Reverse
pub mod Downstream
pub mod Ready
pub mod Times
pub mod Kahn
pub mod Complete
use carve.Common.{
  ℕ, zero, suc, ◌+◌, ◌-◌, String, Bool, true, false, Option, none, some, List, [], ◌∷◌, ◌++◌, not,
  ◌&&◌, ◌==◌, string_eq, nat_eq, option_eq, if◌then◌else◌, contains, ltb, map,
}
use carve.Common.Dict.{Dict, lookup, insert, keys}
use carve.Common.Names.{subset}
use carve.Pipeline.Step.{PipelineStep}
use carve.Pipeline.Dag.{
  Result, ok, err, ◌>>=◌, index_steps, index_deps, deps_of, validate_no_cycles, size,
}

-- dependents[dep].append(sid), for a key that is there
unfoldable pub append_to : String → String → Dict (List String) → Dict (List String)
append_to dep sid [] = []
append_to dep sid ((k, xs) ∷ d) =
    if dep == k then (k, xs ++ (sid ∷ [])) ∷ d else (k, xs) ∷ append_to dep sid d

-- {sid: [] for sid in deps}
unfoldable pub no_dependents : Dict (List String) → Dict (List String)
no_dependents [] = []
no_dependents ((k, ds) ∷ deps) = (k, []) ∷ no_dependents deps

unfoldable pub add_edges : String → List String → Dict (List String) → Dict (List String)
add_edges sid [] d = d
add_edges sid (dep ∷ ds) d = add_edges sid ds (append_to dep sid d)

unfoldable pub add_all_edges : Dict (List String) → Dict (List String) → Dict (List String)
unfolding add_edges append_to
add_all_edges [] d = d
add_all_edges ((sid, ds) ∷ deps) d = add_all_edges deps (add_edges sid ds d)

-- The reverse edges.
unfoldable pub dependents_of : Dict (List String) → Dict (List String)
dependents_of deps = add_all_edges deps (no_dependents deps)

-- index[item], for an item that is there
unfoldable pub index_of : Dict ℕ → String → ℕ
index_of index item = elim (lookup item index) [ none ↦ 0 | some i ↦ i ]

-- {step.id: i for i, step in enumerate(steps)}
unfoldable pub declaration_index : List PipelineStep → ℕ → Dict ℕ → Dict ℕ
declaration_index [] i d = d
declaration_index (s ∷ steps) i d = declaration_index steps (suc i) (insert s.id i d)

unfoldable pub insert_sorted : List String → String → Dict ℕ → List String
insert_sorted [] item index = item ∷ []
insert_sorted (x ∷ queue) item index =
    let rest = insert_sorted queue item index in
    if ltb (index_of index item) (index_of index x) then item ∷ x ∷ queue else x ∷ rest

-- Insertion one by one, each behind those of an equal key, is a stable sort.
unfoldable pub insert_all : List String → List String → Dict ℕ → List String
insert_all queue [] index = queue
insert_all queue (x ∷ xs) index = insert_all (insert_sorted queue x index) xs index

-- sorted(xs, key=lambda s: index[s])
unfoldable pub sorted_by : List String → Dict ℕ → List String
sorted_by xs index = insert_all [] xs index

-- {sid: len(deps) for sid, deps in deps.items()}
unfoldable pub indegrees : Dict (List String) → Dict ℕ
indegrees [] = []
indegrees ((k, ds) ∷ deps) = (k, size ds) ∷ indegrees deps

-- The ids of indegree 0.
unfoldable pub free_ids : Dict ℕ → List String
free_ids [] = []
free_ids ((k, n) ∷ d) = let rest = free_ids d in if n == 0 then k ∷ rest else rest

-- The loop over `dependents[node]`: the indegrees after it, and the newly ready in order. A step
-- has one edge to each of its dependencies, so no indegree is lowered below 0.
unfoldable pub lower_all : List String → Dict ℕ → Dict ℕ × List String
lower_all [] indegree = (indegree, [])
lower_all (x ∷ xs) indegree =
    let n = index_of indegree x - 1 in
    let rest = lower_all xs (insert x n indegree) in if n == 0 then (rest.0, x ∷ rest.1) else rest

-- The `while ready` loop.
unfoldable pub kahn : ℕ → Dict (List String) → Dict ℕ → List String → Dict ℕ → List String
unfolding lower_all
kahn zero dependents index ready indegree = []
kahn (suc fuel) dependents index [] indegree = []
kahn (suc fuel) dependents index (node ∷ ready) indegree =
    let lowered = lower_all (deps_of dependents node) indegree in
    node ∷ kahn fuel dependents index (insert_all ready (sorted_by lowered.1 index) index) lowered.0

-- Each step is taken from `ready` at most once, so the number of steps is enough.
unfoldable pub compute_topological_order : List PipelineStep → Dict (List String) → List String
compute_topological_order steps deps =
    let index = declaration_index steps 0 [] in
    kahn (size deps) (dependents_of deps) index (sorted_by (free_ids (indegrees deps)) index)
      (indegrees deps)

pub record PipelineDag : Type 0 where
  pub steps_by_id : Dict PipelineStep
  pub deps : Dict (List String)
  pub topological_order : List String

-- PipelineDAG(pipeline)
unfoldable pub build_dag : List PipelineStep → Result PipelineDag
build_dag steps =
    let deps = index_deps steps [] in
    validate_no_cycles deps >>= λ colours. ok (record {
      steps_by_id = index_steps steps [];
      deps = deps;
      topological_order = compute_topological_order steps deps;
    })

-- The loop over the topological order.
unfoldable pub ready_in : PipelineDag → List String → List String → List PipelineStep
ready_in dag resolved [] = []
ready_in dag resolved (id ∷ ids) =
    let rest = ready_in dag resolved ids in
    if not (contains resolved id) && subset (deps_of dag.deps id) resolved
    then elim (lookup id dag.steps_by_id) [ none ↦ rest | some s ↦ s ∷ rest ]
    else rest

unfoldable pub ready_steps :
    PipelineDag → (completed failed skipped : List String) → List PipelineStep
ready_steps dag completed failed skipped =
    ready_in dag (completed ++ failed ++ skipped) dag.topological_order

-- xs[::-1]
unfoldable pub reverse_onto : List String → List String → List String
reverse_onto [] ys = ys
reverse_onto (x ∷ xs) ys = reverse_onto xs (x ∷ ys)

-- The `while frontier` loop, with the end of the frontier first.
unfoldable pub downstream_loop : ℕ → Dict (List String) → List String → List String → List String
downstream_loop zero dependents frontier result = result
downstream_loop (suc fuel) dependents [] result = result
downstream_loop (suc fuel) dependents (node ∷ frontier) result =
    let skip = downstream_loop fuel dependents frontier result in
    let next =
      downstream_loop fuel dependents (reverse_onto (deps_of dependents node) frontier)
        (node ∷ result) in
    if contains result node then skip else next

unfoldable pub edge_count : Dict (List String) → ℕ
edge_count [] = 0
edge_count ((k, xs) ∷ d) = size xs + edge_count d

-- Each turn takes one entry of the frontier, and each edge puts at most one there beside the first.
unfoldable pub downstream_of : PipelineDag → String → List String
downstream_of dag id =
    let dependents = dependents_of dag.deps in
    let frontier = deps_of dependents id in
    downstream_loop (suc (size frontier + edge_count dependents)) dependents
      (reverse_onto frontier []) []
