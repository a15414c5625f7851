-- ===== src/Pipeline/Graph/Complete.antt =====
-- The topological order holds every step once, behind its dependencies
-- (src/carve/runtime/pipeline_dag.py).
use carve.Common.{
  ℕ, zero, suc, ◌+◌, ◌≤◌, String, true, false, List, [], ◌∷◌, ◌&&◌, ◌||◌, ◌==◌, string_eq, nat_eq,
  if◌then◌else◌, contains, ◌≡◌, refl, arith,
}
use carve.Common.Dict.{Dict, keys, lookup, insert}
use carve.Common.Names.{open_count}
use carve.Pipeline.Step.{PipelineStep}
use carve.Pipeline.Dag.{deps_of, size, index_deps, ok, set_of}
use carve.Pipeline.Dag.Acyclic.{Grounded, grounded, validate_sound}
use carve.Pipeline.Graph.{
  PipelineDag, dependents_of, index_of, sorted_by, kahn, indegrees, free_ids, declaration_index,
  compute_topological_order, build_dag,
}
use carve.Pipeline.Graph.Members.{keys-insert, insert_all-members}
use carve.Pipeline.Graph.Ready.{ids_of}
use carve.Pipeline.Graph.Order.{build_dag-Built, compute_topological_order-AllIn}
use carve.Pipeline.Graph.Reverse.{is_unique, build_dag-is_unique}
use carve.Pipeline.Graph.Times.{
  times, times_of_absent, times_of_member, EdgesOnce, index_deps-EdgesOnce, insert_all-times,
}
use carve.Pipeline.Graph.Kahn.{
  Ordered, Turn, turn, node_facts, next, lowered, open_count-cons, open_count-zero, emitted_of_zero,
}

module _ (deps : Dict (List String)) (u : is_unique deps ≡ true) (o : EdgesOnce deps) where
  -- What the loop emits after some names: names behind their dependencies, each once, and every
  -- name whose dependencies are all emitted.
  record Emits (emitted order : List String) : Type 0 where
    ordered : Ordered deps emitted order
    once : (x : String) → times x order + (if contains emitted x then 1 else 0) ≤ 1
    saturated :
        (x : String)
        → contains (keys deps) x ≡ true
        → ((d : String)
            → contains (deps_of deps x) d ≡ true
            → (contains emitted d || contains order d) ≡ true)
        → (contains emitted x || contains order x) ≡ true

  none_open :
      (emitted : List String)
      → ((x : String) → contains (keys deps) x ≡ true → contains emitted x ≡ true)
      → Emits emitted []
  unfolding Ordered times
  none_open emitted h = record {
    ordered = tt;
    once = λ x. ground arith;
    saturated = λ x k all. ground (arith, h x k);
  }

  kahn-Emits :
      (fuel : ℕ) (index : Dict ℕ) (emitted ready : List String) (indegree : Dict ℕ)
      → open_count emitted (keys deps) ≤ fuel
      → Turn deps u o emitted ready indegree
      → Emits emitted (kahn fuel (dependents_of deps) index ready indegree)
  unfolding kahn Ordered times
  kahn-Emits zero index emitted ready indegree few t =
      none_open emitted (λ x k. emitted_of_zero emitted (keys deps) x (omega arith) k)
  kahn-Emits (suc fuel) index emitted [] indegree few t = record {
    ordered = tt;
    once = λ x. ground arith;
    saturated = λ x k all.
        let zero_left = open_count-zero emitted (deps_of deps x) (λ d m. ground (arith, all d m)) in
        ground (arith, t.waiting x, t.counts x k, zero_left);
  }
  kahn-Emits (suc fuel) index emitted (node ∷ ready) indegree few t =
      let (key, new, free, single) = node_facts deps u o index node emitted ready indegree t in
      let rest =
        kahn-Emits fuel index (node ∷ emitted) (next deps u o index node emitted ready indegree t)
          (lowered deps u o index node emitted ready indegree t)
          (omega (
            arith,
            open_count-cons emitted node (keys deps) new,
            times_of_member node (keys deps) key,
          ))
          (turn deps u o index node emitted ready indegree t) in
      record {
        ordered = (λ d m. emitted_of_zero emitted (deps_of deps node) d free m, rest.ordered);
        once = λ x. ground (arith, rest.once x, new);
        saturated = λ x k all. ground (arith, rest.saturated x k (λ d m. ground (arith, all d m)));
      }

  -- The loop starts with the steps that have no dependency.
  index_of-indegrees :
      (ds : Dict (List String)) (x : String)
      → contains (keys ds) x ≡ true
      → index_of (indegrees ds) x ≡ size (deps_of ds x)
  unfolding index_of indegrees deps_of lookup keys
  index_of-indegrees [] x k = cc
  index_of-indegrees ((j, xs) ∷ ds) x k = ground (arith, index_of-indegrees ds x)

  free_ids-absent :
      (ds : Dict (List String)) (x : String)
      → contains (keys ds) x ≡ false
      → times x (free_ids (indegrees ds)) ≡ 0
  unfolding free_ids indegrees keys times
  free_ids-absent [] x k = refl
  free_ids-absent ((j, xs) ∷ ds) x k = ground (arith, free_ids-absent ds x)

  free_ids-times :
      (ds : Dict (List String)) (x : String)
      → is_unique ds ≡ true
      → times x (free_ids (indegrees ds))
        ≡ (if contains (keys ds) x && (size (deps_of ds x) == 0) then 1 else 0)
  unfolding free_ids indegrees keys times is_unique deps_of lookup
  free_ids-times [] x k = refl
  free_ids-times ((j, xs) ∷ ds) x k = ground (arith, free_ids-times ds x, free_ids-absent ds x)

  open_count-none : (ds : List String) → open_count [] ds ≡ size ds
  unfolding open_count
  open_count-none [] = refl
  open_count-none (d ∷ ds) = omega (arith, open_count-none ds)

  start-Turn :
      (index : Dict ℕ)
      → Turn deps u o [] (sorted_by (free_ids (indegrees deps)) index) (indegrees deps)
  unfolding sorted_by times
  start-Turn index =
      let free = free_ids (indegrees deps) in
      let sorted = λ (x : String). insert_all-times [] free index x in
      record {
        counts =
            λ x k. omega (arith, index_of-indegrees deps x k, open_count-none (deps_of deps x));
        closed = λ x m. absurd (cc);
        once = λ x. ground (arith, sorted x, free_ids-times deps x u);
        waiting = λ x. ground (
          arith,
          insert_all-members [] free index x,
          free_ids-times deps x u,
          times_of_absent x free,
          times_of_member x free,
          index_of-indegrees deps x,
        );
      }

  size-keys : (ds : Dict (List String)) → size (keys ds) ≡ size ds
  unfolding keys
  size-keys [] = refl
  size-keys ((k, xs) ∷ ds) = omega (arith, size-keys ds)

  order-Emits : (steps : List PipelineStep) → Emits [] (compute_topological_order steps deps)
  unfolding compute_topological_order
  order-Emits steps =
      let index = declaration_index steps 0 [] in
      kahn-Emits (size deps) index [] (sorted_by (free_ids (indegrees deps)) index) (indegrees deps)
        (omega (arith, open_count-none (keys deps), size-keys deps)) (start-Turn index)

  -- Chains of dependencies end, so every step is emitted.
  all_emitted :
      (order : List String)
      → Emits [] order
      → (x : String) → Grounded deps x
      → contains (keys deps) x ≡ true
      → contains order x ≡ true
  all_emitted order e x (grounded known below) k = ground (
    arith,
    e.saturated x k (λ d m. ground (arith, all_emitted order e d (below d m) (known d m))),
  )

keys-index_deps :
    (steps : List PipelineStep) (deps : Dict (List String)) (x : String)
    → contains (keys (index_deps steps deps)) x
      ≡ (contains (ids_of steps) x || contains (keys deps) x)
unfolding index_deps ids_of
keys-index_deps [] deps x = refl
keys-index_deps (s ∷ steps) deps x =
    let edges = set_of s.depends_on in
    ground (arith, keys-index_deps steps (insert s.id edges deps) x, keys-insert s.id edges deps x)

keys-steps :
    (steps : List PipelineStep) (x : String)
    → contains (keys (index_deps steps [])) x ≡ contains (ids_of steps) x
unfolding keys
keys-steps steps x = ground (arith, keys-index_deps steps [] x)

module _ (steps : List PipelineStep) (dag : PipelineDag) (e : build_dag steps ≡ ok dag) where
  edges_once : EdgesOnce (index_deps steps [])
  unfolding times deps_of lookup
  edges_once = index_deps-EdgesOnce steps [] (λ x k. omega arith)

  abbrev unique : is_unique (index_deps steps []) ≡ true
  unique = rw (← (build_dag-Built steps dag e).deps_same) at (build_dag-is_unique steps dag e)

  emits :
      Emits
        (index_deps steps [])
        unique
        edges_once
        []
        (compute_topological_order steps (index_deps steps []))
  emits = order-Emits (index_deps steps []) unique edges_once steps

  emitted_once :
      (x : String)
      → times x (compute_topological_order steps (index_deps steps []))
        ≡ (if contains (ids_of steps) x then 1 else 0)
  emitted_once x =
      let deps = index_deps steps [] in
      let order = compute_topological_order steps deps in
      let b = build_dag-Built steps dag e in
      ground (
        arith,
        emits.once x,
        compute_topological_order-AllIn steps deps x,
        λ (k : contains (keys deps) x ≡ true).
            all_emitted deps unique edges_once order emits x
              (validate_sound deps b.colours x b.passes k) k,
        keys-steps steps x,
        times_of_member x order,
        times_of_absent x order,
      )

  -- In a graph that is built, the topological order holds the id of each step once and no other
  -- name, and each id stands behind the ids of its dependencies.
  pub topological_order-Ordered :
      ((x : String) → times x dag.topological_order ≡ (if contains (ids_of steps) x then 1 else 0))
      × Ordered dag.deps [] dag.topological_order
  topological_order-Ordered =
      let b = build_dag-Built steps dag e in
      (λ x. rw (← b.order_same) (emitted_once x), rw (← b.order_same, ← b.deps_same) emits.ordered)

  pub built-Grounded : (x : String) → contains (keys dag.deps) x ≡ true → Grounded dag.deps x
  built-Grounded x k =
      let b = build_dag-Built steps dag e in
      rw (← b.deps_same)
        (validate_sound (index_deps steps []) b.colours x b.passes (rw (← b.deps_same) at k))

  pub built-keys : (x : String) → contains (keys dag.deps) x ≡ contains (ids_of steps) x
  built-keys x = let b = build_dag-Built steps dag e in rw (← b.deps_same) (keys-steps steps x)

  pub built-order :
      (x : String) → contains (ids_of steps) x ≡ true → contains dag.topological_order x ≡ true
  built-order x m =
      ground (arith, topological_order-Ordered.0 x, times_of_absent x dag.topological_order)
