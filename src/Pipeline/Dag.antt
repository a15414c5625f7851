-- ===== src/Pipeline/Dag.antt =====
-- `PipelineDAG._validate_no_cycles` of src/carve/runtime/pipeline_dag.py.
pub mod Acyclic
pub mod Depth
pub use carve.Common.Result.{ok, err, ◌>>=◌}
use carve.Common.Result.{Fallible}
use carve.Common.{
  ℕ, zero, suc, ◌+◌, ◌-◌, String, Bool, true, false, Option, none, some, List, [], ◌∷◌, ◌++◌, ◌||◌,
  ◌&&◌, not, ◌==◌, string_eq, nat_eq, if◌then◌else◌, contains, ltb, leb, map,
}
use carve.Common.Dict.{Dict, lookup, insert, keys}
use carve.Pipeline.Step.{PipelineStep}

-- `PipelineError` for a dangling reference or a cycle; `no_fuel` is the model's own.
pub data DagError : Type 0 where
  unknown_step cycle : String → DagError
  no_fuel : DagError

abbrev pub Result {ℓ} : Type ℓ → Type ℓ
Result A = Fallible DagError A

-- set(names), with the members in the order of their first occurrence
unfoldable pub set_of : List String → List String
set_of [] = []
set_of (x ∷ xs) = let rest = set_of xs in if contains rest x then rest else x ∷ rest

-- {step.id: step for step in steps}
unfoldable pub index_steps : List PipelineStep → Dict PipelineStep → Dict PipelineStep
index_steps [] d = d
index_steps (s ∷ steps) d = index_steps steps (insert s.id s d)

-- {step.id: set(step.depends_on) for step in steps}
unfoldable pub index_deps : List PipelineStep → Dict (List String) → Dict (List String)
unfolding set_of
index_deps [] d = d
index_deps (s ∷ steps) d = index_deps steps (insert s.id (set_of s.depends_on) d)

-- deps[id], for an id that is there
unfoldable pub deps_of : Dict (List String) → String → List String
deps_of deps id = elim (lookup id deps) [ none ↦ [] | some ds ↦ ds ]

-- The three colours: 0, 1 and 2 in the source.
pub data Colour : Type 0 where
  unvisited on_stack done : Colour

abbrev pub Colours : Type 0
Colours = Dict Colour

-- dict.fromkeys(deps, 0)
unfoldable pub all_unvisited : Dict (List String) → Colours
all_unvisited [] = []
all_unvisited ((k, ds) ∷ deps) = (k, unvisited) ∷ all_unvisited deps

-- The loop over `deps[node]`, given the visit of one step.
unfoldable pub visit_deps :
    (String → Colours → Result Colours) → List String → Colours → Result Colours
visit_deps visit [] state = ok state
visit_deps visit (dep ∷ rest) state =
    let next = visit dep state >>= visit_deps visit rest in
    let skip = visit_deps visit rest state in
    elim (lookup dep state) [
      | none ↦ err (unknown_step dep)
      | some c ↦ elim c [ on_stack ↦ err (cycle dep) | unvisited ↦ next | done ↦ skip ]
    ]

-- The depth of the recursion is bounded by the fuel.
unfoldable pub visit : ℕ → Dict (List String) → String → Colours → Result Colours
unfolding visit_deps
visit zero deps node state = err no_fuel
visit (suc fuel) deps node state =
    visit_deps (visit fuel deps) (deps_of deps node) (insert node on_stack state) >>= λ s.
    ok (insert node done s)

unfoldable pub visit_all : ℕ → Dict (List String) → List String → Colours → Result Colours
visit_all fuel deps [] state = ok state
visit_all fuel deps (id ∷ ids) state =
    let next = visit fuel deps id state >>= visit_all fuel deps ids in
    let skip = visit_all fuel deps ids state in
    elim (lookup id state) [
      | none ↦ skip
      | some c ↦ elim c [ unvisited ↦ next | on_stack ↦ skip | done ↦ skip ]
    ]

abbrev pub size {ℓ} : {A : Type ℓ} → List A → ℕ
size [] = 0
size (x ∷ xs) = suc (size xs)

-- A chain of visits holds each step at most once, so the number of steps and one more is enough.
unfoldable pub validate_no_cycles : Dict (List String) → Result Colours
validate_no_cycles deps = visit_all (suc (size deps)) deps (keys deps) (all_unvisited deps)
