-- ===== src/Pipeline/Graph/Reverse.antt =====
-- The reverse edges of a graph (src/carve/runtime/pipeline_dag.py).
use mathlib.Core.Path.{subst}
use carve.Common.{
  String, Bool, true, false, List, [], ◌∷◌, not, ◌&&◌, ◌||◌, ◌==◌, string_eq, contains, ◌≡◌, refl,
  arith,
}
use carve.Common.Names.{contains-append}
use carve.Common.Dict.{Dict, lookup, insert, keys}
use carve.Pipeline.Step.{PipelineStep}
use carve.Pipeline.Dag.{deps_of, index_deps, set_of, ok}
use carve.Pipeline.Graph.{
  append_to, no_dependents, add_edges, add_all_edges, dependents_of, build_dag, PipelineDag,
}
use carve.Pipeline.Graph.Members.{keys-insert}
use carve.Pipeline.Graph.Order.{build_dag-deps}

pub keys-append_to :
    (dep sid : String) (d : Dict (List String)) (k : String)
    → contains (keys (append_to dep sid d)) k ≡ contains (keys d) k
unfolding append_to keys
keys-append_to dep sid [] k = refl
keys-append_to dep sid ((j, xs) ∷ d) k = ground (arith, keys-append_to dep sid d k)

append_to-edge :
    (dep sid : String) (d : Dict (List String)) (k x : String)
    → contains (deps_of (append_to dep sid d) k) x
      ≡ (contains (deps_of d k) x || (k == dep && x == sid && contains (keys d) k))
unfolding append_to deps_of lookup keys
append_to-edge dep sid [] k x = ground arith
append_to-edge dep sid ((j, xs) ∷ d) k x =
    ground (arith, contains-append xs (sid ∷ []) x, append_to-edge dep sid d k x)

pub keys-add_edges :
    (sid : String) (ds : List String) (d : Dict (List String)) (k : String)
    → contains (keys (add_edges sid ds d)) k ≡ contains (keys d) k
unfolding add_edges
keys-add_edges sid [] d k = refl
keys-add_edges sid (dep ∷ ds) d k =
    ground (arith, keys-add_edges sid ds (append_to dep sid d) k, keys-append_to dep sid d k)

add_edges-edge :
    (sid : String) (ds : List String) (d : Dict (List String)) (k x : String)
    → contains (deps_of (add_edges sid ds d) k) x
      ≡ (contains (deps_of d k) x || (contains ds k && x == sid && contains (keys d) k))
unfolding add_edges
add_edges-edge sid [] d k x = ground arith
add_edges-edge sid (dep ∷ ds) d k x = ground (
  arith,
  add_edges-edge sid ds (append_to dep sid d) k x,
  append_to-edge dep sid d k x,
  keys-append_to dep sid d k,
)

-- Some entry says that `y` depends on `x`.
unfoldable edge_in : Dict (List String) → String → String → Bool
edge_in [] y x = false
edge_in ((k, ds) ∷ deps) y x = (y == k && contains ds x) || edge_in deps y x

add_all_edges-edge :
    (deps d : Dict (List String)) (k x : String)
    → contains (deps_of (add_all_edges deps d) k) x
      ≡ (contains (deps_of d k) x || (edge_in deps x k && contains (keys d) k))
unfolding add_all_edges edge_in
add_all_edges-edge [] d k x = ground arith
add_all_edges-edge ((sid, ds) ∷ deps) d k x = ground (
  arith,
  add_all_edges-edge deps (add_edges sid ds d) k x,
  add_edges-edge sid ds d k x,
  keys-add_edges sid ds d k,
)

pub keys-no_dependents :
    (deps : Dict (List String)) (k : String)
    → contains (keys (no_dependents deps)) k ≡ contains (keys deps) k
unfolding no_dependents keys
keys-no_dependents [] k = refl
keys-no_dependents ((j, ds) ∷ deps) k = ground (arith, keys-no_dependents deps k)

no_dependents-edge :
    (deps : Dict (List String)) (k x : String) → contains (deps_of (no_dependents deps) k) x ≡ false
unfolding no_dependents deps_of lookup
no_dependents-edge [] k x = refl
no_dependents-edge ((j, ds) ∷ deps) k x = ground (arith, no_dependents-edge deps k x)

-- No key stands twice.
unfoldable pub is_unique : Dict (List String) → Bool
is_unique [] = true
is_unique ((k, ds) ∷ deps) = not (contains (keys deps) k) && is_unique deps

no_entry :
    (deps : Dict (List String)) (y x : String)
    → contains (keys deps) y ≡ false
    → edge_in deps y x ≡ false
unfolding edge_in keys
no_entry [] y x f = refl
no_entry ((k, ds) ∷ deps) y x f = ground (arith, no_entry deps y x)

edge_in_unique :
    (deps : Dict (List String)) (y x : String)
    → is_unique deps ≡ true
    → edge_in deps y x ≡ contains (deps_of deps y) x
unfolding edge_in is_unique deps_of lookup keys
edge_in_unique [] y x u = refl
edge_in_unique ((k, ds) ∷ deps) y x u = ground (arith, edge_in_unique deps y x, no_entry deps y x)

insert-is_unique :
    (k : String) (ds : List String) (d : Dict (List String))
    → is_unique d ≡ true
    → is_unique (insert k ds d) ≡ true
unfolding is_unique insert keys
insert-is_unique k ds [] u = refl
insert-is_unique k ds ((j, xs) ∷ d) u =
    ground (arith, insert-is_unique k ds d, keys-insert k ds d j)

pub index_deps-is_unique :
    (steps : List PipelineStep) (d : Dict (List String))
    → is_unique d ≡ true
    → is_unique (index_deps steps d) ≡ true
unfolding index_deps
index_deps-is_unique [] d u = u
index_deps-is_unique (s ∷ steps) d u =
    index_deps-is_unique steps (insert s.id (set_of s.depends_on) d)
      (insert-is_unique s.id (set_of s.depends_on) d u)

-- The dependents of a step of the graph are those that name it.
pub dependents_of-edge :
    (deps : Dict (List String)) (k x : String)
    → is_unique deps ≡ true
    → contains (deps_of (dependents_of deps) k) x
      ≡ (contains (deps_of deps x) k && contains (keys deps) k)
unfolding dependents_of
dependents_of-edge deps k x u = ground (
  arith,
  add_all_edges-edge deps (no_dependents deps) k x,
  keys-no_dependents deps k,
  no_dependents-edge deps k x,
  edge_in_unique deps x k u,
)

pub build_dag-is_unique :
    (steps : List PipelineStep) (dag : PipelineDag)
    → build_dag steps ≡ ok dag
    → is_unique dag.deps ≡ true
unfolding build_dag is_unique
build_dag-is_unique steps dag e =
    subst (λ ds. is_unique ds ≡ true) (build_dag-deps steps dag e)
      (index_deps-is_unique steps [] refl)
