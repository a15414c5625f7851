-- ===== src/Pipeline/Graph/Times.antt =====
-- How often a name stands in the lists of the topological order
-- (src/carve/runtime/pipeline_dag.py): the edges, the sorted queue and the lowered indegrees.
use carve.Common.{
  ℕ, ◌+◌, ◌-◌, ◌≤◌, String, true, false, List, [], ◌∷◌, ◌++◌, ◌&&◌, ◌==◌, string_eq, nat_eq,
  if◌then◌else◌, contains, ◌≡◌, refl, arith,
}
use carve.Common.Dict.{Dict, lookup, insert, keys, lookup-insert}
use carve.Pipeline.Step.{PipelineStep}
use carve.Pipeline.Dag.{deps_of, index_deps, set_of}
use carve.Pipeline.Graph.{
  append_to, no_dependents, add_edges, add_all_edges, dependents_of, index_of, insert_sorted,
  insert_all, lower_all,
}
use carve.Pipeline.Graph.Reverse.{is_unique, keys-add_edges, keys-append_to, keys-no_dependents}

unfoldable pub times : String → List String → ℕ
times x [] = 0
times x (y ∷ ys) = (if x == y then 1 else 0) + times x ys

pub times-append : (x : String) (a b : List String) → times x (a ++ b) ≡ times x a + times x b
unfolding times
times-append x [] b = omega arith
times-append x (y ∷ a) b = ground (arith, times-append x a b)

pub times_of_absent : (x : String) (xs : List String) → contains xs x ≡ false → times x xs ≡ 0
unfolding times
times_of_absent x [] h = refl
times_of_absent x (y ∷ xs) h = ground (arith, times_of_absent x xs)

pub times_of_member : (x : String) (xs : List String) → contains xs x ≡ true → 1 ≤ times x xs
unfolding times
times_of_member x [] h = cc
times_of_member x (y ∷ xs) h = ground (arith, times_of_member x xs)

append_to-times :
    (dep sid : String) (d : Dict (List String)) (k x : String)
    → times x (deps_of (append_to dep sid d) k)
      ≡ times x (deps_of d k) + (if k == dep && (x == sid && contains (keys d) k) then 1 else 0)
unfolding append_to deps_of lookup keys times
append_to-times dep sid [] k x = ground arith
append_to-times dep sid ((j, xs) ∷ d) k x =
    ground (arith, times-append x xs (sid ∷ []), append_to-times dep sid d k x)

add_edges-times :
    (sid : String) (ds : List String) (d : Dict (List String)) (k x : String)
    → times x (deps_of (add_edges sid ds d) k)
      ≡ times x (deps_of d k) + (if x == sid && contains (keys d) k then times k ds else 0)
unfolding add_edges times
add_edges-times sid [] d k x = ground arith
add_edges-times sid (dep ∷ ds) d k x = ground (
  arith,
  add_edges-times sid ds (append_to dep sid d) k x,
  append_to-times dep sid d k x,
  keys-append_to dep sid d k,
)

-- How often the entries say that `y` depends on `x`.
unfoldable edge_times : Dict (List String) → String → String → ℕ
unfolding times
edge_times [] y x = 0
edge_times ((k, ds) ∷ deps) y x = (if y == k then times x ds else 0) + edge_times deps y x

add_all_edges-times :
    (deps d : Dict (List String)) (k x : String)
    → times x (deps_of (add_all_edges deps d) k)
      ≡ times x (deps_of d k) + (if contains (keys d) k then edge_times deps x k else 0)
unfolding add_all_edges edge_times
add_all_edges-times [] d k x = ground arith
add_all_edges-times ((sid, ds) ∷ deps) d k x = ground (
  arith,
  add_all_edges-times deps (add_edges sid ds d) k x,
  add_edges-times sid ds d k x,
  keys-add_edges sid ds d k,
)

no_dependents-times :
    (deps : Dict (List String)) (k x : String) → times x (deps_of (no_dependents deps) k) ≡ 0
unfolding no_dependents deps_of lookup times
no_dependents-times [] k x = refl
no_dependents-times ((j, ds) ∷ deps) k x = ground (arith, no_dependents-times deps k x)

no_edge_times :
    (deps : Dict (List String)) (y x : String)
    → contains (keys deps) y ≡ false
    → edge_times deps y x ≡ 0
unfolding edge_times keys
no_edge_times [] y x f = refl
no_edge_times ((k, ds) ∷ deps) y x f = ground (arith, no_edge_times deps y x)

edge_times_unique :
    (deps : Dict (List String)) (y x : String)
    → is_unique deps ≡ true
    → edge_times deps y x ≡ times x (deps_of deps y)
unfolding edge_times is_unique deps_of lookup keys times
edge_times_unique [] y x u = refl
edge_times_unique ((k, ds) ∷ deps) y x u =
    ground (arith, edge_times_unique deps y x, no_edge_times deps y x)

-- Each edge is reversed as often as it is there.
pub dependents_of-times :
    (deps : Dict (List String)) (k x : String)
    → is_unique deps ≡ true
    → times x (deps_of (dependents_of deps) k)
      ≡ (if contains (keys deps) k then times k (deps_of deps x) else 0)
unfolding dependents_of
dependents_of-times deps k x u = ground (
  arith,
  add_all_edges-times deps (no_dependents deps) k x,
  keys-no_dependents deps k,
  no_dependents-times deps k x,
  edge_times_unique deps x k u,
)

set_of-once : (x : String) (xs : List String) → times x (set_of xs) ≤ 1
unfolding set_of times
set_of-once x [] = omega arith
set_of-once x (y ∷ xs) = ground (arith, set_of-once x xs, times_of_absent x (set_of xs))

abbrev pub EdgesOnce : Dict (List String) → Type 0
EdgesOnce deps = (x k : String) → times k (deps_of deps x) ≤ 1

insert-EdgesOnce :
    (id : String) (ds : List String) (deps : Dict (List String))
    → ((k : String) → times k ds ≤ 1)
    → EdgesOnce deps
    → EdgesOnce (insert id ds deps)
unfolding deps_of times
insert-EdgesOnce id ds deps n o x k = ground (arith, lookup-insert x id ds deps, n k, o x k)

-- A step has one edge to each of its dependencies.
pub index_deps-EdgesOnce :
    (steps : List PipelineStep) (deps : Dict (List String))
    → EdgesOnce deps
    → EdgesOnce (index_deps steps deps)
unfolding index_deps
index_deps-EdgesOnce [] deps o = o
index_deps-EdgesOnce (s ∷ steps) deps o =
    index_deps-EdgesOnce steps (insert s.id (set_of s.depends_on) deps)
      (insert-EdgesOnce s.id (set_of s.depends_on) deps (λ k. set_of-once k s.depends_on) o)

insert_sorted-times :
    (queue : List String) (item : String) (index : Dict ℕ) (x : String)
    → times x (insert_sorted queue item index) ≡ (if x == item then 1 else 0) + times x queue
unfolding insert_sorted times
insert_sorted-times [] item index x = refl
insert_sorted-times (y ∷ queue) item index x =
    ground (arith, insert_sorted-times queue item index x)

-- The stable insertion loses and doubles nothing.
pub insert_all-times :
    (queue xs : List String) (index : Dict ℕ) (x : String)
    → times x (insert_all queue xs index) ≡ times x queue + times x xs
unfolding insert_all times
insert_all-times queue [] index x = ground arith
insert_all-times queue (y ∷ xs) index x = ground (
  arith,
  insert_all-times (insert_sorted queue y index) xs index x,
  insert_sorted-times queue y index x,
)

index_of-insert :
    (x k : String) (n : ℕ) (d : Dict ℕ)
    → index_of (insert k n d) x ≡ (if x == k then n else index_of d x)
unfolding index_of
index_of-insert x k n d = ground (arith, lookup-insert x k n d)

-- Each edge lowers an indegree by one.
pub lower_all-index :
    (xs : List String) (indegree : Dict ℕ) (x : String)
    → index_of (lower_all xs indegree).0 x ≡ index_of indegree x - times x xs
unfolding lower_all times
lower_all-index [] indegree x = omega arith
lower_all-index (y ∷ xs) indegree x =
    let n = index_of indegree y - 1 in
    ground (arith, lower_all-index xs (insert y n indegree) x, index_of-insert x y n indegree)

-- What gets ready are the steps whose last indegree is taken.
pub lower_all-ready :
    (xs : List String) (indegree : Dict ℕ) (x : String)
    → times x xs ≤ 1
    → times x (lower_all xs indegree).1
      ≡ (if contains xs x && (index_of indegree x - 1 == 0) then 1 else 0)
unfolding lower_all times
lower_all-ready [] indegree x o = refl
lower_all-ready (y ∷ xs) indegree x o =
    let n = index_of indegree y - 1 in
    ground (
      arith,
      lower_all-ready xs (insert y n indegree) x (ground arith),
      index_of-insert x y n indegree,
      times_of_member x xs,
    )
