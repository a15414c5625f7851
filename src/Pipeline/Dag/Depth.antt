-- ===== src/Pipeline/Dag/Depth.antt =====
-- The depth of the three-colour search of src/carve/runtime/pipeline_dag.py.
use carve.Common.{
  ℕ, zero, suc, ◌+◌, ◌≤◌, String, Option, none, some, List, [], ◌∷◌, ◌≡◌, ◌≢◌, refl, string_eq,
  nat_eq, arith,
}
use carve.Common.Dict.{Dict, lookup, insert, keys}
use carve.Pipeline.Dag.{
  Result, ok, err, no_fuel, ◌>>=◌, deps_of, Colour, unvisited, on_stack, done, Colours,
  all_unvisited, visit_deps, visit, visit_all, validate_no_cycles, size,
}

abbrev one_if_unvisited : Colour → ℕ
one_if_unvisited unvisited = 1
one_if_unvisited on_stack = 0
one_if_unvisited done = 0

-- The steps that are still to be visited.
abbrev whites : Colours → ℕ
whites [] = 0
whites ((k, c) ∷ s) = one_if_unvisited c + whites s

whites-enter :
    (node : String) (s : Colours)
    → lookup node s ≡ some unvisited
    → suc (whites (insert node on_stack s)) ≡ whites s
unfolding lookup insert
whites-enter node [] h = absurd (cc)
whites-enter node ((k, c) ∷ s) h = ground (arith, whites-enter node s)

whites-leave : (node : String) (s : Colours) → whites (insert node done s) ≤ whites s
unfolding insert
whites-leave node [] = omega arith
whites-leave node ((k, c) ∷ s) = ground (arith, whites-leave node s)

whites-all_unvisited : (deps : Dict (List String)) → whites (all_unvisited deps) ≡ size deps
unfolding all_unvisited
whites-all_unvisited [] = refl
whites-all_unvisited ((k, ds) ∷ deps) = omega (arith, whites-all_unvisited deps)

-- A visit with enough fuel ends, in a table with no more unvisited steps than before.
record Ends (bound : ℕ) (r : Result Colours) : Type 0 where
  fuelled : r ≢ err no_fuel
  shrinks : (s' : Colours) → r ≡ ok s' → whites s' ≤ bound

abbrev VisitEnds : ℕ → (String → Colours → Result Colours) → Type 0
VisitEnds bound v =
    (node : String) (s : Colours)
    → lookup node s ≡ some unvisited
    → whites s ≤ bound
    → Ends (whites s) (v node s)

bind-Ends :
    (bound : ℕ) (m : Result Colours) (f : Colours → Result Colours)
    → Ends bound m
    → ((s : Colours) → whites s ≤ bound → Ends bound (f s))
    → Ends bound (m >>= f)
bind-Ends bound (ok s) f e h = h s (e.shrinks s refl)
bind-Ends bound (err no_fuel) f e h = absurd (e.fuelled refl)
bind-Ends bound (err x) f e h = record {
  fuelled = λ p. e.fuelled (cc p);
  shrinks = λ s' p. absurd (cc p);
}

ok_inj : {s t : Colours} → ◌≡◌ {A = Result Colours} (ok s) (ok t) → t ≡ s
ok_inj h = ground arith

weaken : (a b : ℕ) (r : Result Colours) → a ≤ b → Ends a r → Ends b r
weaken a b r le e = record { fuelled = e.fuelled; shrinks = λ s' p. omega (arith, e.shrinks s' p) }

module _ (v : String → Colours → Result Colours) (bound : ℕ) (ends : VisitEnds bound v) where
  rest-Ends :
      (dep : String) (rest : List String) (s : Colours)
      → whites s ≤ bound
      → ((s₁ : Colours) → whites s₁ ≤ bound → Ends (whites s₁) (visit_deps v rest s₁))
      → (c : Option Colour) → lookup dep s ≡ c
      → Ends (whites s) (visit_deps v (dep ∷ rest) s)
  unfolding visit_deps
  rest-Ends dep rest s le ih none e =
      rw (e, visit_deps) (record { fuelled = λ p. cc; shrinks = λ s' p. absurd (cc) })
  rest-Ends dep rest s le ih (some on_stack) e =
      rw (e, visit_deps) (record { fuelled = λ p. cc; shrinks = λ s' p. absurd (cc) })
  rest-Ends dep rest s le ih (some done) e = rw (e, visit_deps) (ih s le)
  rest-Ends dep rest s le ih (some unvisited) e =
      rw (e, visit_deps)
        (bind-Ends (whites s) (v dep s) (visit_deps v rest) (ends dep s e le)
          (λ s₁ le₁. weaken (whites s₁) (whites s) _ le₁ (ih s₁ (omega (arith)))))

  visit_deps-Ends :
      (ds : List String) (s : Colours) → whites s ≤ bound → Ends (whites s) (visit_deps v ds s)
  visit_deps-Ends [] s le =
      unfold visit_deps in
      (record { fuelled = λ p. cc; shrinks = λ s' p. rw (ok_inj p) (omega arith) })
  visit_deps-Ends (dep ∷ rest) s le =
      rest-Ends dep rest s le (visit_deps-Ends rest) (lookup dep s) refl

visit-ends : (fuel : ℕ) (deps : Dict (List String)) → VisitEnds fuel (visit fuel deps)
unfolding visit
visit-ends zero deps node s u le = absurd (omega (arith, whites-enter node s u))
visit-ends (suc fuel) deps node s u le =
    let entered = insert node on_stack s in
    let fewer = whites-enter node s u in
    bind-Ends (whites s) (visit_deps (visit fuel deps) (deps_of deps node) entered)
      (λ x. ok (insert node done x))
      (weaken (whites entered) (whites s) _ (omega (arith, fewer)) (
        visit_deps-Ends (visit fuel deps) fuel (visit-ends fuel deps) (deps_of deps node) entered
          (omega (arith, fewer))))
      (λ s₁ le₁. record {
        fuelled = λ p. cc;
        shrinks = λ s' p. rw (ok_inj p) (omega (arith, whites-leave node s₁));
      })

module _ (deps : Dict (List String)) (fuel : ℕ) where
  roots_end :
      (id : String) (ids : List String) (s : Colours)
      → whites s ≤ fuel
      → ((s₁ : Colours) → whites s₁ ≤ fuel → Ends (whites s₁) (visit_all fuel deps ids s₁))
      → (c : Option Colour) → lookup id s ≡ c
      → Ends (whites s) (visit_all fuel deps (id ∷ ids) s)
  unfolding visit_all
  roots_end id ids s le ih none e = rw (e, visit_all) (ih s le)
  roots_end id ids s le ih (some on_stack) e = rw (e, visit_all) (ih s le)
  roots_end id ids s le ih (some done) e = rw (e, visit_all) (ih s le)
  roots_end id ids s le ih (some unvisited) e =
      rw (e, visit_all)
        (bind-Ends (whites s) (visit fuel deps id s) (visit_all fuel deps ids)
          (visit-ends fuel deps id s e le)
          (λ s₁ le₁. weaken (whites s₁) (whites s) _ le₁ (ih s₁ (omega arith))))

  visit_all-Ends :
      (ids : List String) (s : Colours)
      → whites s ≤ fuel
      → Ends (whites s) (visit_all fuel deps ids s)
  visit_all-Ends [] s le =
      unfold visit_all in
      (record { fuelled = λ p. cc; shrinks = λ s' p. rw (ok_inj p) (omega arith) })
  visit_all-Ends (id ∷ ids) s le = roots_end id ids s le (visit_all-Ends ids) (lookup id s) refl

-- The search always ends: it passes, or it reports a cycle or an unknown step.
pub validate_ends : (deps : Dict (List String)) → validate_no_cycles deps ≢ err no_fuel
unfolding validate_no_cycles
validate_ends deps =
    (visit_all-Ends deps (suc (size deps)) (keys deps) (all_unvisited deps)
      (omega (arith, whites-all_unvisited deps))).fuelled
