-- ===== src/Pipeline/Dag/Acyclic.antt =====
-- The three-colour search of src/carve/runtime/pipeline_dag.py and the graph it walks.
use carve.Common.{
  ℕ, zero, suc, String, true, Option, none, some, List, [], ◌∷◌, ◌≡◌, ◌≢◌, refl, string_eq, nat_eq,
  if◌then◌else◌, contains, arith, is_some,
}
use mathlib.Core.Path.{subst, sym}
use carve.Common.Dict.{Dict, lookup, insert, keys, lookup-insert}
use carve.Pipeline.Dag.{
  Result, ok, err, ◌>>=◌, deps_of, Colour, unvisited, on_stack, done, Colours, all_unvisited,
  visit_deps, visit, visit_all, validate_no_cycles, size,
}

-- All chains of dependencies from the step end, and every step on them exists.
pub data Grounded (deps : Dict (List String)) : String → Type 0 where
  grounded :
      {x : String}
      → ((d : String) → contains (deps_of deps x) d ≡ true → contains (keys deps) d ≡ true)
      → ((d : String) → contains (deps_of deps x) d ≡ true → Grounded deps d)
      → Grounded deps x

-- A visit and what follows it both pass.
through_bind :
    {final : Colours} (visited : Result Colours) (next : Colours → Result Colours)
    → (visited >>= next) ≡ ok final
    → (between : Colours) × (next between ≡ ok final) × (visited ≡ ok between)
through_bind (err raised) next passes = absurd (cc)
through_bind (ok between) next passes = (between, passes, refl)

module _ (deps : Dict (List String)) where
  -- What the colours mean, whenever the search stands between two steps.
  record Sound (s : Colours) : Type 0 where
    finished : (x : String) → lookup x s ≡ some done → Grounded deps x
    known : (x : String) (c : Colour) → lookup x s ≡ some c → contains (keys deps) x ≡ true

  abbrev Keeps : Colours → Colours → Type 0
  Keeps s s' = (x : String) → lookup x s ≡ some done → lookup x s' ≡ some done

  -- No step is left on the stack, and none loses its colour.
  record Frame (s s' : Colours) : Type 0 where
    left_stack : (x : String) → lookup x s' ≡ some on_stack → lookup x s ≡ some on_stack
    coloured : (x : String) → is_some (lookup x s) ≡ true → is_some (lookup x s') ≡ true

  record Finished (node : String) (s s' : Colours) : Type 0 where
    sound : Sound s'
    keeps : Keeps s s'
    frame : Frame s s'
    at_node : lookup node s' ≡ some done

  abbrev VisitSound : (String → Colours → Result Colours) → Type 0
  VisitSound v =
      (node : String) (s s' : Colours)
      → Sound s
      → lookup node s ≡ some unvisited
      → v node s ≡ ok s'
      → Finished node s s'

  record AllFinished (ds : List String) (s s' : Colours) : Type 0 where
    sound : Sound s'
    keeps : Keeps s s'
    frame : Frame s s'
    all_done : (d : String) → contains ds d ≡ true → lookup d s' ≡ some done

  after_first :
      (dep : String) (rest : List String) (s s₁ s' : Colours)
      → Keeps s s₁
      → Frame s s₁
      → lookup dep s₁ ≡ some done
      → AllFinished rest s₁ s'
      → AllFinished (dep ∷ rest) s s'
  after_first dep rest s s₁ s' k fr d r = record {
    sound = r.sound;
    frame = record {
      left_stack = λ x e. fr.left_stack x (r.frame.left_stack x e);
      coloured = λ x e. r.frame.coloured x (fr.coloured x e);
    };
    keeps = λ x e. r.keeps x (k x e);
    all_done = λ x m. ground (arith, r.all_done x, r.keeps dep d);
  }

  by_colour :
      (v : String → Colours → Result Colours)
      → VisitSound v
      → (dep : String) (rest : List String) (s s' : Colours) → Sound s
      → ((s₁ : Colours) → Sound s₁ → visit_deps v rest s₁ ≡ ok s' → AllFinished rest s₁ s')
      → visit_deps v (dep ∷ rest) s ≡ ok s'
      → (c : Option Colour) → lookup dep s ≡ c
      → AllFinished (dep ∷ rest) s s'
  unfolding visit_deps
  by_colour v vs dep rest s s' i ih h none e = absurd (ground arith)
  by_colour v vs dep rest s s' i ih h (some on_stack) e = absurd (ground arith)
  by_colour v vs dep rest s s' i ih h (some done) e =
      after_first dep rest s s s' (λ x k. k) (record { left_stack = λ x k. k; coloured = λ x k. k })
        e (ih s i (ground arith))
  by_colour v vs dep rest s s' i ih h (some unvisited) e =
      let (s₁, then_rest, first) = through_bind (v dep s) (visit_deps v rest) (ground arith) in
      let f = vs dep s s₁ i e first in
      after_first dep rest s s₁ s' f.keeps f.frame f.at_node (ih s₁ f.sound then_rest)

  visit_deps-sound :
      (v : String → Colours → Result Colours)
      → VisitSound v
      → (ds : List String) (s s' : Colours) → Sound s
      → visit_deps v ds s ≡ ok s'
      → AllFinished ds s s'
  visit_deps-sound v vs [] s s' i h =
      unfold visit_deps in
      (let e : s ≡ s' = ground arith in
        record {
          sound = subst (λ x. Sound x) e i;
          keeps = λ x k. rw e at k;
          frame = subst (λ x. Frame s x) e (record { left_stack = λ x k. k; coloured = λ x k. k });
          all_done = λ d m. cc;
        })
  visit_deps-sound v vs (dep ∷ rest) s s' i h =
      by_colour v vs dep rest s s' i (λ s₁ i₁. visit_deps-sound v vs rest s₁ s' i₁) h (lookup dep s)
        refl

  visit_sound : (fuel : ℕ) → VisitSound (visit fuel deps)
  unfolding visit
  visit_sound zero node s s' i u h = absurd (cc)
  visit_sound (suc fuel) node s s' i u h =
      let entered = insert node on_stack s in
      let (s₁, e, body) =
        through_bind (visit_deps (visit fuel deps) (deps_of deps node) entered)
          (λ x. ok (insert node done x)) h in
      let entered_sound : Sound entered = record {
        finished = λ x k. i.finished x (ground (arith, lookup-insert x node on_stack s));
        known = λ x c k.
            ground (arith, lookup-insert x node on_stack s, i.known x c, i.known node unvisited u);
      } in
      let b =
        visit_deps-sound (visit fuel deps) (visit_sound fuel) (deps_of deps node) entered s₁
          entered_sound body in
      let here : Grounded deps node =
        grounded (λ d m. b.sound.known d done (b.all_done d m))
          (λ d m. b.sound.finished d (b.all_done d m)) in
      let p : s' ≡ insert node done s₁ = ground arith in
      subst (λ x. Finished node s x) (sym p)
        (record {
          sound = record {
            finished = λ x k. elim (string_eq.dec x node) [
              | yes same ↦ rw same here
              | no other ↦ b.sound.finished x (ground (arith, lookup-insert x node done s₁))
            ];
            known = λ x c k.
                ground (
                  arith,
                  lookup-insert x node done s₁,
                  b.sound.known x c,
                  i.known node unvisited u,
                );
          };
          keeps = λ x k.
              ground
                (arith, lookup-insert x node done s₁, lookup-insert x node on_stack s, b.keeps x);
          frame = record {
            left_stack = λ x k. ground (
              arith,
              lookup-insert x node done s₁,
              lookup-insert x node on_stack s,
              b.frame.left_stack x,
            );
            coloured = λ x k. ground (
              arith,
              lookup-insert x node done s₁,
              lookup-insert x node on_stack s,
              b.frame.coloured x,
            );
          };
          at_node = ground (arith, lookup-insert node node done s₁);
        })

  record AllVisited (ids : List String) (s s' : Colours) : Type 0 where
    sound : Sound s'
    keeps : Keeps s s'
    visited :
        ((x : String) → lookup x s ≢ some on_stack)
        → ((x : String) → contains ids x ≡ true → is_some (lookup x s) ≡ true)
        → (x : String) → contains ids x ≡ true
        → lookup x s' ≡ some done

  by_root :
      (fuel : ℕ) (id : String) (ids : List String) (s s' : Colours)
      → Sound s
      → ((s₁ : Colours) → Sound s₁ → visit_all fuel deps ids s₁ ≡ ok s' → AllVisited ids s₁ s')
      → visit_all fuel deps (id ∷ ids) s ≡ ok s'
      → (c : Option Colour) → lookup id s ≡ c
      → AllVisited (id ∷ ids) s s'
  unfolding visit_all
  by_root fuel id ids s s' i ih h none e =
      let r = ih s i (ground arith) in
      record {
        sound = r.sound;
        keeps = r.keeps;
        visited = λ n k x m. absurd (ground (arith, k id));
      }
  by_root fuel id ids s s' i ih h (some on_stack) e =
      let r = ih s i (ground arith) in
      record { sound = r.sound; keeps = r.keeps; visited = λ n k x m. absurd (n id e) }
  by_root fuel id ids s s' i ih h (some done) e =
      let r = ih s i (ground arith) in
      record {
        sound = r.sound;
        keeps = r.keeps;
        visited =
            λ n k x m. ground (arith, r.visited n (λ y my. k y (ground arith)) x, r.keeps id e);
      }
  by_root fuel id ids s s' i ih h (some unvisited) e =
      let (s₁, then_rest, first) =
        through_bind (visit fuel deps id s) (visit_all fuel deps ids) (ground arith) in
      let f = visit_sound fuel id s s₁ i e first in
      let r = ih s₁ f.sound then_rest in
      record {
        sound = r.sound;
        keeps = λ x k. r.keeps x (f.keeps x k);
        visited = λ n k x m. ground (
          arith,
          r.visited (λ y o. n y (f.frame.left_stack y o))
              (λ y my. f.frame.coloured y (k y (ground arith))) x,
          r.keeps id f.at_node,
        );
      }

  visit_all-Sound :
      (fuel : ℕ) (ids : List String) (s s' : Colours)
      → Sound s
      → visit_all fuel deps ids s ≡ ok s'
      → AllVisited ids s s'
  visit_all-Sound fuel [] s s' i h =
      unfold visit_all in
      (let e : s ≡ s' = ground arith in
        record {
          sound = subst (λ x. Sound x) e i;
          keeps = λ x k. rw e at k;
          visited = λ n k x m. cc;
        })
  visit_all-Sound fuel (id ∷ ids) s s' i h =
      by_root fuel id ids s s' i (λ s₁ i₁. visit_all-Sound fuel ids s₁ s' i₁) h (lookup id s) refl

lookup-all_unvisited :
    (x : String) (deps : Dict (List String))
    → lookup x (all_unvisited deps) ≡ (if contains (keys deps) x then some unvisited else none)
unfolding lookup all_unvisited keys
lookup-all_unvisited x [] = refl
lookup-all_unvisited x ((k, ds) ∷ deps) = ground (arith, lookup-all_unvisited x deps)

-- If the search passes, then from every step all chains of dependencies end and meet only steps
-- of the pipeline: there is neither a cycle nor a dangling reference.
pub validate_sound :
    (deps : Dict (List String)) (s : Colours) (x : String)
    → validate_no_cycles deps ≡ ok s
    → contains (keys deps) x ≡ true
    → Grounded deps x
unfolding validate_no_cycles
validate_sound deps s x h m =
    let start = all_unvisited deps in
    let first : Sound deps start = record {
      finished = λ y e. absurd (ground (arith, lookup-all_unvisited y deps));
      known = λ y c e. ground (arith, lookup-all_unvisited y deps);
    } in
    let r = visit_all-Sound deps (suc (size deps)) (keys deps) start s first h in
    r.sound.finished x (
      r.visited (λ y e. ground (arith, lookup-all_unvisited y deps))
        (λ y my. ground (arith, lookup-all_unvisited y deps)) x m)
