-- ===== src/Pipeline/Graph/Downstream.antt =====
-- The transitive dependents of a step (src/carve/runtime/pipeline_dag.py).
use mathlib.Core.Path.{subst}
use carve.Common.{
  ℕ, zero, suc, ◌+◌, ◌≤◌, ◌<◌, String, Bool, true, false, List, [], ◌∷◌, ◌||◌, ◌==◌, string_eq,
  nat_eq, if◌then◌else◌, contains, ◌≡◌, ◌↔◌, refl, arith, Bool-cases, inl, inr, ◌⊎◌,
}
use carve.Common.Dict.{Dict, lookup, keys}
use carve.Pipeline.Step.{PipelineStep}
use carve.Pipeline.Dag.{deps_of, ok, size}
use carve.Pipeline.Graph.Reverse.{is_unique, dependents_of-edge, build_dag-is_unique}
use carve.Pipeline.Graph.{
  PipelineDag, dependents_of, reverse_onto, downstream_loop, edge_count, downstream_of, build_dag,
}

reverse_onto-members :
    (xs ys : List String) (x : String)
    → contains (reverse_onto xs ys) x ≡ (contains xs x || contains ys x)
unfolding reverse_onto
reverse_onto-members [] ys x = refl
reverse_onto-members (z ∷ xs) ys x = ground (arith, reverse_onto-members xs (z ∷ ys) x)

reverse_onto-size : (xs ys : List String) → size (reverse_onto xs ys) ≡ size xs + size ys
unfolding reverse_onto
reverse_onto-size [] ys = omega arith
reverse_onto-size (z ∷ xs) ys = ground (arith, reverse_onto-size xs (z ∷ ys))

-- The edges of the nodes that are not in the result.
unfoldable pending : Dict (List String) → List String → ℕ
pending [] r = 0
pending ((k, xs) ∷ d) r = (if contains r k then 0 else size xs) + pending d r

pending-bound : (d : Dict (List String)) (r : List String) → pending d r ≤ edge_count d
unfolding pending edge_count
pending-bound [] r = omega arith
pending-bound ((k, xs) ∷ d) r = ground (arith, pending-bound d r)

pending_mono :
    (d : Dict (List String)) (node : String) (r : List String) → pending d (node ∷ r) ≤ pending d r
unfolding pending
pending_mono [] node r = omega arith
pending_mono ((k, xs) ∷ d) node r = ground (arith, pending_mono d node r)

pending-takes :
    (d : Dict (List String)) (node : String) (r : List String)
    → contains r node ≡ false
    → pending d (node ∷ r) + size (deps_of d node) ≤ pending d r
unfolding pending deps_of lookup
pending-takes [] node r f = omega arith
pending-takes ((k, xs) ∷ d) node r f =
    ground (arith, pending_mono d node r, pending-takes d node r f)

-- From a set of nodes, every edge leads into it or to the frontier.
abbrev Closed : Dict (List String) → List String → List String → Type 0
Closed d frontier r =
    (x y : String)
    → contains r x ≡ true
    → contains (deps_of d x) y ≡ true
    → (contains r y || contains frontier y) ≡ true

none_below : (n : ℕ) → n < 0 → ⊥
none_below n h = omega arith

downstream_loop_complete :
    (fuel : ℕ) (d : Dict (List String)) (frontier r : List String)
    → size frontier + pending d r < fuel
    → Closed d frontier r
    → ((x : String)
        → (contains r x || contains frontier x) ≡ true
        → contains (downstream_loop fuel d frontier r) x ≡ true)
      × Closed d [] (downstream_loop fuel d frontier r)
unfolding downstream_loop
downstream_loop_complete zero d frontier r few c = elim (none_below _ few) [ ]
downstream_loop_complete (suc fuel) d [] r few c = ((λ x m. ground arith), c)
downstream_loop_complete (suc fuel) d (node ∷ frontier) r few c =
    elim (Bool-cases (contains r node)) [
      | inl seen ↦
          let (has, closed) =
            downstream_loop_complete fuel d frontier r (ground arith)
              (λ x y m e. ground (arith, c x y)) in
          rw (seen) ((λ x m. has x (ground arith)), closed)
      | inr new ↦
          let edges = deps_of d node in
          let next = reverse_onto edges frontier in
          let less = pending-takes d node r new in
          let long = reverse_onto-size edges frontier in
          let (has, closed) =
            downstream_loop_complete fuel d next (node ∷ r) (ground (arith, less, long))
              (λ x y m e. ground (arith, c x y, reverse_onto-members edges frontier y)) in
          rw (new) ((λ x m. has x (ground (arith, reverse_onto-members edges frontier x))), closed)
    ]

members_of :
    (xs ys : List String) (x : String)
    → contains (reverse_onto xs ys) x ≡ true
    → (contains xs x || contains ys x) ≡ true
members_of xs ys x m = ground (arith, reverse_onto-members xs ys x)

or_cases : (a b : Bool) → (a || b) ≡ true → (a ≡ true) ⊎ (b ≡ true)
or_cases a b h = ground arith

or_right : (a b : Bool) → b ≡ true → (a || b) ≡ true
or_right a b h = ground arith

downstream_loop-sound :
    (P : String → Type 0) (fuel : ℕ) (d : Dict (List String)) (frontier r : List String)
    → ((x y : String) → P x → contains (deps_of d x) y ≡ true → P y)
    → ((x : String) → contains frontier x ≡ true → P x)
    → ((x : String) → contains r x ≡ true → P x)
    → (x : String) → contains (downstream_loop fuel d frontier r) x ≡ true
    → P x
unfolding downstream_loop
downstream_loop-sound P zero d frontier r step f q x m = q x m
downstream_loop-sound P (suc fuel) d [] r step f q x m = q x m
downstream_loop-sound P (suc fuel) d (node ∷ frontier) r step f q x m =
    elim (Bool-cases (contains r node)) [
      | inl seen ↦
          downstream_loop-sound P fuel d frontier r step (λ y n. f y (or_right _ _ n)) q x
            (ground arith)
      | inr new ↦
          let edges = deps_of d node in
          downstream_loop-sound P fuel d (reverse_onto edges frontier) (node ∷ r) step
            (λ y n. elim (or_cases _ _ (members_of edges frontier y n)) [
              | inl edge ↦ step node y (f node (ground arith)) edge
              | inr later ↦ f y (or_right _ _ later)
            ])
            (λ y n. elim (or_cases (y == node) (contains r y) n) [
              | inl here ↦
                  let same : node ≡ y = ground arith in subst P same (f node (ground arith))
              | inr old ↦ q y old
            ])
            x (ground arith)
    ]

-- A step depends on another one, at once or through others.
pub data DependsOn (deps : Dict (List String)) (id : String) : String → Type 0 where
  direct : (x : String) → contains (deps_of deps x) id ≡ true → DependsOn deps id x
  through :
      (x y : String)
      → contains (deps_of deps x) y ≡ true
      → DependsOn deps id y
      → DependsOn deps id x

true-false : false ≡ true → ⊥
true-false e = cc

pub key_of :
    (deps : Dict (List String)) (x y : String)
    → contains (deps_of deps x) y ≡ true
    → contains (keys deps) x ≡ true
unfolding deps_of lookup keys
key_of [] x y m = cc
key_of ((k, ds) ∷ deps) x y m = ground (arith, key_of deps x y)

DependsOn-key :
    (deps : Dict (List String)) (id x : String)
    → DependsOn deps id x
    → contains (keys deps) x ≡ true
DependsOn-key deps id x (direct z e) = key_of deps x id e
DependsOn-key deps id x (through z y e p) = key_of deps x y e

module _ (deps : Dict (List String)) (id : String) (u : is_unique deps ≡ true) where
  edge_of :
      (k x : String)
      → contains (deps_of (dependents_of deps) k) x ≡ true
      → contains (deps_of deps x) k ≡ true
  edge_of k x m = ground (arith, dependents_of-edge deps k x u)

  all_below : List String
  all_below =
      let d = dependents_of deps in
      let start = reverse_onto (deps_of d id) [] in
      downstream_loop (suc (size (deps_of d id) + edge_count d)) d start []

  below_sound : (x : String) → contains all_below x ≡ true → DependsOn deps id x
  unfolding all_below
  below_sound =
      let d = dependents_of deps in
      downstream_loop-sound (DependsOn deps id) (suc (size (deps_of d id) + edge_count d)) d
        (reverse_onto (deps_of d id) []) [] (λ x y p m. through y x (edge_of x y m) p)
        (λ x m. direct x (edge_of id x (ground (arith, reverse_onto-members (deps_of d id) [] x))))
        (λ x m. elim (true-false m) [ ])

  below-Closed :
      ((x : String)
        → contains (deps_of (dependents_of deps) id) x ≡ true
        → contains all_below x ≡ true)
      × Closed (dependents_of deps) [] all_below
  unfolding all_below
  below-Closed =
      let d = dependents_of deps in
      let start = reverse_onto (deps_of d id) [] in
      let (has, closed) =
        downstream_loop_complete (suc (size (deps_of d id) + edge_count d)) d start []
          (ground (arith, reverse_onto-size (deps_of d id) [], pending-bound d []))
          (λ a b m e. elim (true-false m) [ ]) in
      ((λ x m. has x (ground (arith, reverse_onto-members (deps_of d id) [] x))), closed)

  below_complete :
      contains (keys deps) id ≡ true
      → (x : String) → DependsOn deps id x
      → contains all_below x ≡ true
  below_complete k x (direct z e) =
      below-Closed.0 x (ground (arith, dependents_of-edge deps id x u))
  below_complete k x (through z y e p) =
      let inside = below_complete k y p in
      let key = DependsOn-key deps id y p in
      ground (arith, below-Closed.1 y x, dependents_of-edge deps y x u)

-- In a graph that is built, the downstream of one of its steps holds exactly the steps that depend
-- on it, at once or through others.
pub downstream_of-exact :
    (steps : List PipelineStep) (dag : PipelineDag) (id x : String)
    → build_dag steps ≡ ok dag
    → contains (keys dag.deps) id ≡ true
    → (contains (downstream_of dag id) x ≡ true) ↔ DependsOn dag.deps id x
unfolding downstream_of all_below
downstream_of-exact steps dag id x e k =
    let u = build_dag-is_unique steps dag e in
    (below_sound dag.deps id u x, below_complete dag.deps id u k x)
