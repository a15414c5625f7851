-- ===== src/Queue/Claim/Oldest.antt =====
-- The row that `claim_next` of src/carve/core/state/job_queue.py takes.
use carve.Common.{
  ℕ, ◌≤◌, String, Bool, true, false, Option, none, some, List, [], ◌∷◌, ◌≡◌, refl, arith, ◌⊎◌, inl,
  inr, string_eq, nat_eq, ◌==◌, Bool-cases, Option-cases, sym,
}
use mathlib.Core.Path.{subst}
use carve.Queue.Table.{Job, Queue, queued, job_claimed, ok, update_where, any_row, emit}
use carve.Queue.Rows.{WellFormed, update_where-WellFormed, store_of_WellFormed}
use carve.Queue.Single.{IsRow, any_row_of_row}
use carve.Queue.Claim.{label_matches, claimable, before, first_by_order, take_claim, claim_next}

-- A job that this worker may claim now, without the query's three-valued tests.
pub record MayClaim (locked : String → Bool) (worker_label : Option String) (tenant_id now : ℕ)
    (j : Job) : Type 0 where
  pub is_waiting : j.status ≡ queued
  pub of_tenant : j.tenant_id ≡ tenant_id
  pub due : (t : ℕ) → j.scheduled_for ≡ some t → t ≤ now
  pub placed : (l : String) → j.required_label ≡ some l → worker_label ≡ some l
  pub unlocked : locked j.id ≡ false

label_matches-some : (l : String) (w : Option String) → label_matches (some l) w ≡ true → w ≡ some l
label_matches-some l none h = cc
label_matches-some l (some w) h = ground arith

claimable-MayClaim :
    (locked : String → Bool) (worker_label : Option String) (tenant_id now : ℕ) (j : Job)
    → claimable locked worker_label tenant_id now j ≡ true
    → MayClaim locked worker_label tenant_id now j
unfolding claimable
claimable-MayClaim locked worker_label tenant_id now j h = record {
  is_waiting = ground arith;
  of_tenant = ground arith;
  due = λ t e. ground arith;
  placed = λ l e. ground (arith, label_matches-some l worker_label);
  unlocked = ground arith;
}

before_asym : (a b : Job) → before a b ≡ true → before b a ≡ false
unfolding before
before_asym a b h = ground arith

-- The order is a total preorder, so what does not come before the middle one comes not before the last.
not-before_trans : (a b c : Job) → before a b ≡ false → before b c ≡ false → before a c ≡ false
unfolding before
not-before_trans a b c h k = ground arith

abbrev pub IsFirst : (Job → Bool) → List Job → Job → Type 0
IsFirst test jobs j =
    IsRow j jobs × (test j ≡ true) × ((k : Job) → IsRow k jobs → test k ≡ true → before k j ≡ false)

first_by_order-none :
    (test : Job → Bool) (jobs : List Job)
    → first_by_order test jobs ≡ none
    → any_row test jobs ≡ false
unfolding first_by_order any_row
first_by_order-none test [] h = refl
first_by_order-none test (j ∷ jobs) h = ground (arith, first_by_order-none test jobs)

not-before_self : (a : Job) → before a a ≡ false
unfolding before
not-before_self a = ground arith

module _ (test : Job → Bool) (j : Job) (jobs : List Job) where
  skip_head : test j ≡ false → (f : Job) → IsFirst test jobs f → IsFirst test (j ∷ jobs) f
  skip_head n f (r, t, m) =
      (inr r, t, λ k row tk. elim row [ inl e ↦ absurd (ground arith) | inr r' ↦ m k r' tk ])

  head_alone : test j ≡ true → any_row test jobs ≡ false → IsFirst test (j ∷ jobs) j
  head_alone y none_left = (
    inl refl,
    y,
    λ k row tk. elim row [
      | inl e ↦ rw e (not-before_self j)
      | inr r ↦ absurd (ground (arith, any_row_of_row test k jobs r tk))
    ],
  )

  head_kept :
      test j ≡ true
      → (f : Job) → IsFirst test jobs f
      → before f j ≡ false
      → IsFirst test (j ∷ jobs) j
  head_kept y f (r, t, m) b = (
    inl refl,
    y,
    λ k row tk. elim row [
      | inl e ↦ rw e (not-before_self j)
      | inr r' ↦ not-before_trans k f j (m k r' tk) b
    ],
  )

  head_passed : (f : Job) → IsFirst test jobs f → before f j ≡ true → IsFirst test (j ∷ jobs) f
  head_passed f (r, t, m) b =
      (inr r, t, λ k row tk. elim row [ inl e ↦ rw e (before_asym f j b) | inr r' ↦ m k r' tk ])

first_by_order-some :
    (test : Job → Bool) (jobs : List Job) (f : Job)
    → first_by_order test jobs ≡ some f
    → IsFirst test jobs f
unfolding first_by_order
first_by_order-some test [] f h = absurd (cc)
first_by_order-some test (j ∷ jobs) f h = elim (Bool-cases (test j)) [
  | inr n ↦ skip_head test j jobs n f (first_by_order-some test jobs f (ground arith))
  | inl y ↦ elim (Option-cases (first_by_order test jobs)) [
    | inl e ↦
        let p : f ≡ j = ground arith in
        subst (IsFirst test (j ∷ jobs)) (sym p)
          (head_alone test j jobs y (first_by_order-none test jobs e))
    | inr (k, e) ↦
        let ih = first_by_order-some test jobs k e in
        elim (Bool-cases (before k j)) [
          | inl b ↦
              let p : f ≡ k = ground arith in
              subst (IsFirst test (j ∷ jobs)) (sym p) (head_passed test j jobs k ih b)
          | inr b ↦
              let p : f ≡ j = ground arith in
              subst (IsFirst test (j ∷ jobs)) (sym p) (head_kept test j jobs y k ih b)
        ]
  ]
]

claim-WellFormed :
    (worker_id : String) (now : ℕ) (jobs : List Job) (id : String)
    → WellFormed jobs
    → WellFormed (update_where (λ k. k.id == id) (take_claim worker_id now) jobs)
claim-WellFormed worker_id now jobs id w =
    update_where-WellFormed (λ k. k.id == id) (take_claim worker_id now) jobs w (λ k. refl)
      (λ p t k _. omega arith) (λ p t k _. omega arith)

module _ (locked : String → Bool) (worker_id : String) (worker_label : Option String)
    (tenant_id now : ℕ) (q : Queue) where
  -- Over well-formed rows the claim never violates an index. It returns nothing exactly when no row
  -- is claimable; else it takes a row that this worker may claim and that no claimable row precedes
  -- in the order by due time (NULLS LAST) and creation, and changes that row only.
  pub claim_next_oldest :
      WellFormed q.jobs
      → ((any_row (claimable locked worker_label tenant_id now) q.jobs ≡ false)
          × (claim_next locked worker_id worker_label tenant_id now q ≡ ok (none, q)))
        ⊎ ((j : Job) × MayClaim locked worker_label tenant_id now j
            × IsFirst (claimable locked worker_label tenant_id now) q.jobs j
            × WellFormed (update_where (λ k. k.id == j.id) (take_claim worker_id now) q.jobs)
            × (claim_next locked worker_id worker_label tenant_id now q
                ≡ ok (
                  some (take_claim worker_id now j),
                  emit (job_claimed j.id worker_id) (record q {
                    jobs = update_where (λ k. k.id == j.id) (take_claim worker_id now) q.jobs;
                  }),
                )))
  unfolding claim_next
  claim_next_oldest w =
      let test = claimable locked worker_label tenant_id now in
      elim (Option-cases (first_by_order test q.jobs)) [
        | inl e ↦ inl (first_by_order-none test q.jobs e, rw (e, claim_next))
        | inr (j, e) ↦
            let first = first_by_order-some test q.jobs j e in
            let after = claim-WellFormed worker_id now q.jobs j.id w in
            inr (
              j,
              claimable-MayClaim locked worker_label tenant_id now j first.1,
              first,
              after,
              rw (e, claim_next) (rw (store_of_WellFormed _ after)),
            )
      ]
