-- ===== src/Pipeline/Graph/Members.antt =====
-- The names in the lists that the topological order is made from
-- (src/carve/runtime/pipeline_dag.py).
use carve.Common.{
  ℕ, zero, suc, ◌-◌, String, Bool, true, some, List, [], ◌∷◌, ◌||◌, ◌==◌, string_eq, nat_eq,
  contains, ◌≡◌, refl, arith, Bool-cases, inl, inr,
}
use carve.Common.Names.{contains-append}
use carve.Common.Dict.{Dict, lookup, insert, keys, lookup-insert}
use carve.Pipeline.Step.{PipelineStep}
use carve.Pipeline.Dag.{index_steps, index_deps, set_of, deps_of}
use carve.Pipeline.Graph.{
  append_to, no_dependents, add_edges, add_all_edges, dependents_of, index_of, insert_sorted,
  insert_all, sorted_by, indegrees, free_ids, lower_all, kahn,
}

module _ {ℓ} {V : Type ℓ} where
  pub keys-insert :
      (k : String) (v : V) (d : Dict V) (x : String)
      → contains (keys (insert k v d)) x ≡ (x == k || contains (keys d) x)
  unfolding keys insert
  keys-insert k v [] x = refl
  keys-insert k v ((j, w) ∷ d) x = ground (arith, keys-insert k v d x)

-- The list's members have the property.
abbrev pub AllIn : (String → Bool) → List String → Type 0
AllIn p xs = (x : String) → contains xs x ≡ true → p x ≡ true

abbrev pub Holds : Dict PipelineStep → String → Type 0
Holds d id = (s : PipelineStep) × (lookup id d ≡ some s) × (s.id ≡ id)

Holds-insert :
    (s : PipelineStep) (d : Dict PipelineStep) (id : String)
    → (contains (keys d) id ≡ true → Holds d id)
    → contains (keys (insert s.id s d)) id ≡ true
    → Holds (insert s.id s d) id
Holds-insert s d id h m =
    let ks = keys-insert s.id s d id in
    let found = lookup-insert id s.id s d in
    elim (Bool-cases (id == s.id)) [
      | inl hit ↦ (s, ground arith, ground arith)
      | inr miss ↦ let (t, at, same) = h (ground arith) in (t, ground arith, same)
    ]

pub index_steps-Holds :
    (steps : List PipelineStep) (d : Dict PipelineStep) (e : Dict (List String)) (id : String)
    → ((x : String) → contains (keys d) x ≡ contains (keys e) x)
    → (contains (keys d) id ≡ true → Holds d id)
    → contains (keys (index_deps steps e)) id ≡ true
    → Holds (index_steps steps d) id
unfolding index_steps index_deps
index_steps-Holds [] d e id same h m = h (ground (arith, same id))
index_steps-Holds (s ∷ steps) d e id same h m =
    index_steps-Holds steps (insert s.id s d) (insert s.id (set_of s.depends_on) e) id
      (λ x.
        ground (arith, same x, keys-insert s.id s d x, keys-insert s.id (set_of s.depends_on) e x))
      (Holds-insert s d id h) m

insert_sorted-members :
    (queue : List String) (item : String) (index : Dict ℕ) (x : String)
    → contains (insert_sorted queue item index) x ≡ (x == item || contains queue x)
unfolding insert_sorted
insert_sorted-members [] item index x = refl
insert_sorted-members (y ∷ queue) item index x =
    ground (arith, insert_sorted-members queue item index x)

pub insert_all-members :
    (queue xs : List String) (index : Dict ℕ) (x : String)
    → contains (insert_all queue xs index) x ≡ (contains queue x || contains xs x)
unfolding insert_all
insert_all-members queue [] index x = ground arith
insert_all-members queue (y ∷ xs) index x = ground (
  arith,
  insert_all-members (insert_sorted queue y index) xs index x,
  insert_sorted-members queue y index x,
)

lower_all-members :
    (xs : List String) (indegree : Dict ℕ) (x : String)
    → contains (lower_all xs indegree).1 x ≡ true
    → contains xs x ≡ true
unfolding lower_all
lower_all-members [] indegree x m = m
lower_all-members (y ∷ xs) indegree x m =
    ground (arith, lower_all-members xs (insert y (index_of indegree y - 1) indegree) x)

pub free_ids-members :
    (deps : Dict (List String)) (x : String)
    → contains (free_ids (indegrees deps)) x ≡ true
    → contains (keys deps) x ≡ true
unfolding free_ids indegrees keys
free_ids-members [] x m = m
free_ids-members ((k, ds) ∷ deps) x m = ground (arith, free_ids-members deps x)

append_to-members :
    (dep sid : String) (d : Dict (List String)) (k x : String)
    → contains (deps_of (append_to dep sid d) k) x ≡ true
    → (contains (deps_of d k) x || x == sid) ≡ true
unfolding append_to deps_of lookup
append_to-members dep sid [] k x m = cc
append_to-members dep sid ((j, xs) ∷ d) k x m =
    ground (arith, contains-append xs (sid ∷ []) x, append_to-members dep sid d k x)

-- Every value of the dict has members with the property only.
abbrev Within : (String → Bool) → Dict (List String) → Type 0
Within p d = (k : String) → AllIn p (deps_of d k)

module _ (p : String → Bool) where
  append_to-Within :
      (dep sid : String) (d : Dict (List String))
      → p sid ≡ true
      → Within p d
      → Within p (append_to dep sid d)
  append_to-Within dep sid d q w k x m = ground (arith, append_to-members dep sid d k x m, w k x, q)

  no_dependents-Within : (deps : Dict (List String)) → Within p (no_dependents deps)
  unfolding no_dependents deps_of lookup
  no_dependents-Within [] k x m = cc
  no_dependents-Within ((j, ds) ∷ deps) k x m = ground (arith, no_dependents-Within deps k x)

  add_edges-Within :
      (sid : String) (ds : List String) (d : Dict (List String))
      → p sid ≡ true
      → Within p d
      → Within p (add_edges sid ds d)
  unfolding add_edges
  add_edges-Within sid [] d q w = w
  add_edges-Within sid (dep ∷ ds) d q w =
      add_edges-Within sid ds (append_to dep sid d) q (append_to-Within dep sid d q w)

  add_all_edges-Within :
      (deps d : Dict (List String))
      → AllIn p (keys deps)
      → Within p d
      → Within p (add_all_edges deps d)
  unfolding add_all_edges keys
  add_all_edges-Within [] d q w = w
  add_all_edges-Within ((sid, ds) ∷ deps) d q w =
      add_all_edges-Within deps (add_edges sid ds d) (λ x m. q x (ground arith))
        (add_edges-Within sid ds d (q sid (ground arith)) w)

  pub dependents_of-Within :
      (deps : Dict (List String)) → AllIn p (keys deps) → Within p (dependents_of deps)
  unfolding dependents_of
  dependents_of-Within deps q =
      add_all_edges-Within deps (no_dependents deps) q (no_dependents-Within deps)

  pub kahn-AllIn :
      (fuel : ℕ) (dependents : Dict (List String)) (index : Dict ℕ) (ready : List String)
      (indegree : Dict ℕ)
      → Within p dependents
      → AllIn p ready
      → AllIn p (kahn fuel dependents index ready indegree)
  unfolding kahn sorted_by
  kahn-AllIn zero dependents index ready indegree w r x m = cc
  kahn-AllIn (suc fuel) dependents index [] indegree w r x m = cc
  kahn-AllIn (suc fuel) dependents index (node ∷ ready) indegree w r x m =
      let edges = deps_of dependents node in
      let lowered = lower_all edges indegree in
      let next = insert_all ready (sorted_by lowered.1 index) index in
      let later =
        kahn-AllIn fuel dependents index next lowered.0 w
          (λ y n. ground (
            arith,
            insert_all-members ready (sorted_by lowered.1 index) index y,
            insert_all-members [] lowered.1 index y,
            lower_all-members edges indegree y,
            w node y,
            r y,
          ))
          x in
      ground (arith, later, r x)
