-- ===== src/Pipeline/Graph/Kahn.antt =====
-- The `while ready` loop of the topological order (src/carve/runtime/pipeline_dag.py).
use carve.Common.{
  ℕ, ◌+◌, ◌-◌, ◌≤◌, String, true, false, List, [], ◌∷◌, not, ◌&&◌, ◌||◌, ◌==◌, string_eq, nat_eq,
  if◌then◌else◌, contains, ◌≡◌, refl, arith,
}
use carve.Common.Dict.{Dict, keys}
use carve.Common.Names.{open_count}
use carve.Pipeline.Dag.{deps_of}
use carve.Pipeline.Graph.{dependents_of, index_of, insert_all, sorted_by, lower_all}
use carve.Pipeline.Graph.Members.{insert_all-members}
use carve.Pipeline.Graph.Reverse.{is_unique}
use carve.Pipeline.Graph.Downstream.{key_of}
use carve.Pipeline.Graph.Times.{
  times, times_of_absent, times_of_member, dependents_of-times, EdgesOnce, insert_all-times,
  lower_all-index, lower_all-ready,
}

pub open_count-cons :
    (emitted : List String) (node : String) (ds : List String)
    → contains emitted node ≡ false
    → open_count emitted ds ≡ open_count (node ∷ emitted) ds + times node ds
unfolding open_count times
open_count-cons emitted node [] f = omega arith
open_count-cons emitted node (d ∷ ds) f = ground (arith, open_count-cons emitted node ds f)

pub open_count-zero :
    (emitted ds : List String)
    → ((d : String) → contains ds d ≡ true → contains emitted d ≡ true)
    → open_count emitted ds ≡ 0
unfolding open_count
open_count-zero emitted [] h = refl
open_count-zero emitted (d ∷ ds) h =
    ground (arith, h d, open_count-zero emitted ds (λ x m. h x (ground arith)))

pub emitted_of_zero :
    (emitted ds : List String) (d : String)
    → open_count emitted ds ≡ 0
    → contains ds d ≡ true
    → contains emitted d ≡ true
unfolding open_count
emitted_of_zero emitted [] d z m = cc
emitted_of_zero emitted (y ∷ ds) d z m = ground (arith, emitted_of_zero emitted ds d)

-- In the list each name follows its dependencies or they were emitted before.
unfoldable pub Ordered : Dict (List String) → List String → List String → Type 0
Ordered deps emitted [] = Unit
Ordered deps emitted (x ∷ order) =
    ((d : String) → contains (deps_of deps x) d ≡ true → contains emitted d ≡ true)
    × Ordered deps (x ∷ emitted) order

module _ (deps : Dict (List String)) (u : is_unique deps ≡ true) (o : EdgesOnce deps) where
  -- The loop between two turns.
  pub record Turn (emitted ready : List String) (indegree : Dict ℕ) : Type 0 where
    pub counts :
        (x : String)
        → contains (keys deps) x ≡ true
        → index_of indegree x ≡ open_count emitted (deps_of deps x)
    pub closed : (x : String) → contains emitted x ≡ true → open_count emitted (deps_of deps x) ≡ 0
    pub once : (x : String) → times x ready ≤ 1
    pub waiting :
        (x : String)
        → contains ready x
          ≡ (contains (keys deps) x && not (contains emitted x) && (index_of indegree x == 0))

  module _ (index : Dict ℕ) (node : String) (emitted ready : List String) (indegree : Dict ℕ)
      (t : Turn emitted (node ∷ ready) indegree) where
    abbrev edges : List String
    edges = deps_of (dependents_of deps) node

    abbrev pub lowered : Dict ℕ
    lowered = (lower_all edges indegree).0

    abbrev newly : List String
    newly = (lower_all edges indegree).1

    abbrev pub next : List String
    next = insert_all ready (sorted_by newly index) index

    pub node_facts :
        (contains (keys deps) node ≡ true)
        × (contains emitted node ≡ false)
        × (open_count emitted (deps_of deps node) ≡ 0)
        × (contains ready node ≡ false)
    unfolding times
    node_facts =
        let key : contains (keys deps) node ≡ true = ground (arith, t.waiting node) in
        (
          key,
          ground (arith, t.waiting node),
          ground (arith, t.counts node key, t.waiting node),
          ground (arith, t.once node, times_of_member node ready),
        )

    edge_times : (x : String) → times x edges ≡ times node (deps_of deps x)
    edge_times x = ground (arith, dependents_of-times deps node x u, node_facts)

    next-times : (x : String) → times x next ≡ times x ready + times x newly
    unfolding sorted_by times
    next-times x = ground (
      arith,
      insert_all-times ready (sorted_by newly index) index x,
      insert_all-times [] newly index x,
    )

    taken :
        (ds : List String) → open_count emitted ds ≡ open_count (node ∷ emitted) ds + times node ds
    taken ds = open_count-cons emitted node ds (node_facts.1)

    -- A dependent of the node is not emitted and has the node among those that it waits for.
    fresh_edge :
        (x : String)
        → contains edges x ≡ true
        → (contains (keys deps) x ≡ true)
          × (contains emitted x ≡ false)
          × (1 ≤ index_of indegree x)
          × (contains ready x ≡ false)
    fresh_edge x m =
        let some_times : 1 ≤ times node (deps_of deps x) =
          omega (arith, times_of_member x edges m, edge_times x) in
        let named : contains (deps_of deps x) node ≡ true =
          ground (arith, times_of_absent node (deps_of deps x)) in
        let key = key_of deps x node named in
        let waits : 1 ≤ index_of indegree x =
          omega (arith, t.counts x key, taken (deps_of deps x)) in
        (
          key,
          ground (arith, t.closed x, taken (deps_of deps x)),
          waits,
          ground (arith, t.waiting x),
        )

    turn-counts :
        (x : String)
        → contains (keys deps) x ≡ true
        → index_of lowered x ≡ open_count (node ∷ emitted) (deps_of deps x)
    turn-counts x k = omega (
      arith,
      lower_all-index edges indegree x,
      edge_times x,
      taken (deps_of deps x),
      t.counts x k,
    )

    newly-times :
        (x : String)
        → times x newly ≡ (if contains edges x && (index_of indegree x - 1 == 0) then 1 else 0)
    newly-times x = lower_all-ready edges indegree x (omega (arith, edge_times x, o x node))

    next_members : (x : String) → contains next x ≡ (contains ready x || contains newly x)
    unfolding sorted_by
    next_members x = ground (
      arith,
      insert_all-members ready (sorted_by newly index) index x,
      insert_all-members [] newly index x,
    )

    newly_members :
        (x : String) → contains newly x ≡ (contains edges x && (index_of indegree x - 1 == 0))
    newly_members x =
        ground (arith, newly-times x, times_of_absent x newly, times_of_member x newly)

    turn-waiting :
        (x : String)
        → contains next x ≡ (
            contains (keys deps) x
            && not (contains (node ∷ emitted) x)
            && (index_of lowered x == 0))
    turn-waiting x = ground (
      arith,
      next_members x,
      newly_members x,
      node_facts,
      t.waiting x,
      t.counts x,
      fresh_edge x,
      lower_all-index edges indegree x,
      edge_times x,
      o x node,
      times_of_absent x edges,
      times_of_member x edges,
      t.closed x,
      taken (deps_of deps x),
    )

    pub turn : Turn (node ∷ emitted) next lowered
    unfolding times
    turn = record {
      counts = turn-counts;
      closed = λ x m. ground (arith, t.closed x, taken (deps_of deps x), node_facts);
      once = λ x.
          ground
            (arith, next-times x, newly-times x, t.once x, fresh_edge x, times_of_absent x ready);
      waiting = turn-waiting;
    }
