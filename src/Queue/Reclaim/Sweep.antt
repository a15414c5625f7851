-- ===== src/Queue/Reclaim/Sweep.antt =====
-- The one statement of `reclaim_stale` of src/carve/core/state/job_queue.py.
use carve.Common.{
  ℕ, ◌+◌, ◌≤◌, String, Bool, true, false, Option, some, List, [], ◌∷◌, ◌≡◌, refl, ◌&&◌, ◌↔◌, arith,
  inl, inr, if◌then◌else◌, string_eq, nat_eq, option_eq,
}
use carve.Queue.Table.{
  Job, Status, Queue, ok, is_queued, is_running, in_slot, get_job, update_where, any_row,
}
use carve.Queue.Rows.{
  one_if, count_if, in_index, with_id, WellFormed, WellFormed-of_store, store-cases,
  store_of_WellFormed, count-update_where-le,
}
use carve.Queue.Single.{get_job-update_where}
use carve.Queue.Transitions.{transition_to_running, mark_finished, update_heartbeat}
use carve.Queue.Transitions.Guarded.{lost_claim_writes_nothing}
use carve.Queue.Reclaim.{stale, requeue, snapshot, reclaim_stale}

-- An UPDATE that adds to a count by what another count finds in its rows.
count-update_where-add :
    (count add test : Job → Bool) (f : Job → Job) (jobs : List Job)
    → ((k : Job) → test k ≡ true → one_if (count (f k)) ≡ one_if (count k) + one_if (add k))
    → ((k : Job) → test k ≡ false → add k ≡ false)
    → count_if count (update_where test f jobs) ≡ count_if count jobs + count_if add jobs
unfolding update_where
count-update_where-add count add test f [] h n = refl
count-update_where-add count add test f (j ∷ jobs) h n =
    ground (arith, h j, n j, count-update_where-add count add test f jobs h n)

any_row-update_where :
    (test : Job → Bool) (f : Job → Job) (jobs : List Job)
    → ((k : Job) → test k ≡ true → test (f k) ≡ false)
    → any_row test (update_where test f jobs) ≡ false
unfolding any_row update_where
any_row-update_where test f [] h = refl
any_row-update_where test f (j ∷ jobs) h = ground (arith, h j, any_row-update_where test f jobs h)

module _ (locked : String → Bool) (tenant_id now threshold : ℕ) (q : Queue) where
  -- The stale rows of a slot.
  abbrev pub stale_in : String → ℕ → Job → Bool
  stale_in p t j = stale locked tenant_id now threshold j && in_slot p t j

  swept : List Job
  swept = update_where (stale locked tenant_id now threshold) requeue q.jobs

  queued_after :
      (p : String) (t : ℕ)
      → count_if (in_index is_queued p t) swept
        ≡ count_if (in_index is_queued p t) q.jobs + count_if (stale_in p t) q.jobs
  unfolding swept stale
  queued_after p t =
      count-update_where-add (in_index is_queued p t) (stale_in p t)
        (stale locked tenant_id now threshold) requeue q.jobs (λ k h. ground arith)
        (λ k h. ground arith)

  swept-WellFormed :
      WellFormed q.jobs
      → ((p : String) (t : ℕ)
          → count_if (in_index is_queued p t) q.jobs + count_if (stale_in p t) q.jobs ≤ 1)
      → WellFormed swept
  unfolding swept
  swept-WellFormed w h =
      let test = stale locked tenant_id now threshold in
      record {
        ids_once = λ id. omega (
          arith,
          w.ids_once id,
          count-update_where-le (with_id id) test requeue q.jobs (λ k _. omega arith),
        );
        queued_once = λ p t. omega (arith, h p t, queued_after p t);
        running_once = λ p t. omega (
          arith,
          w.running_once p t,
          count-update_where-le (in_index is_running p t) test requeue q.jobs (λ k _. omega arith),
        );
      }

  -- Over well-formed rows the sweep succeeds exactly when each slot has at most one row that is
  -- queued or stale. One slot with two, say a stale job whose pipeline was queued again meanwhile,
  -- makes the whole statement fail with an `IntegrityError`, and then no stale job is reclaimed.
  pub reclaim_ok_iff :
      WellFormed q.jobs
      → ((rows : List (String × Option String × Option String)) × (q' : Queue) × (reclaim_stale
              locked tenant_id now threshold q
            ≡ ok (rows, q')))
        ↔ ((p : String) (t : ℕ)
            → count_if (in_index is_queued p t) q.jobs + count_if (stale_in p t) q.jobs ≤ 1)
  unfolding reclaim_stale swept
  reclaim_ok_iff w = (
    λ (rows, q', h) p t. elim (store-cases swept) [
      | inl e ↦
          omega (arith, (WellFormed-of_store swept swept e).1.queued_once p t, queued_after p t)
      | inr e ↦ absurd (cc (rw e at h))
    ],
    λ h. (
      snapshot (stale locked tenant_id now threshold) q.jobs,
      record q { jobs = swept },
      rw (store_of_WellFormed swept (swept-WellFormed w h)),
    ),
  )

  swept_of_ok :
      (rows : List (String × Option String × Option String)) (q' : Queue)
      → reclaim_stale locked tenant_id now threshold q ≡ ok (rows, q')
      → (q'.jobs ≡ swept) × WellFormed q'.jobs
  unfolding reclaim_stale swept
  swept_of_ok rows q' h = elim (store-cases swept) [
    | inl e ↦
        let p : q'.jobs ≡ swept = cc (rw e at h) in (p, rw p (WellFormed-of_store swept swept e).1)
    | inr e ↦ absurd (cc (rw e at h))
  ]

  row_after :
      (rows : List (String × Option String × Option String)) (q' : Queue)
      → reclaim_stale locked tenant_id now threshold q ≡ ok (rows, q')
      → (id : String) (j : Job) → get_job id q.jobs ≡ some j
      → get_job id q'.jobs ≡ some (if stale locked tenant_id now threshold j then requeue j else j)
  unfolding swept
  row_after rows q' h id j g = rw (swept_of_ok rows q' h).0 (
      get_job-update_where id (stale locked tenant_id now threshold) requeue q.jobs (λ k. refl) j g)

  -- After a sweep that succeeded no row is stale; a job that was stale is requeued, and every other
  -- one is as it was.
  pub reclaim_leaves :
      (rows : List (String × Option String × Option String)) (q' : Queue) (id : String) (j : Job)
      → reclaim_stale locked tenant_id now threshold q ≡ ok (rows, q')
      → get_job id q.jobs ≡ some j
      → (any_row (stale locked tenant_id now threshold) q'.jobs ≡ false)
        × (get_job id q'.jobs
            ≡ some (if stale locked tenant_id now threshold j then requeue j else j))
  unfolding swept
  reclaim_leaves rows q' id j h g = (
    rw (swept_of_ok rows q' h).0 (
        any_row-update_where (stale locked tenant_id now threshold) requeue q.jobs
          (λ k s. unfold stale in ground arith)),
    row_after rows q' h id j g,
  )

  -- After a sweep that succeeded a stale job is queued with no owner, and no worker that held it
  -- can still move, finish or beat it: its beat leaves the table as the others make it meanwhile.
  pub reclaim_disowns :
      (rows : List (String × Option String × Option String)) (q' : Queue) (id : String) (j : Job)
      (worker_id run_id : String) (status : Status) (error : Option String) (later : ℕ)
      (between : Queue → Queue)
      → reclaim_stale locked tenant_id now threshold q ≡ ok (rows, q')
      → get_job id q.jobs ≡ some j
      → stale locked tenant_id now threshold j ≡ true
      → (get_job id q'.jobs ≡ some (requeue j))
        × (transition_to_running id run_id (some worker_id) later q' ≡ ok (false, q'))
        × (mark_finished id status error (some worker_id) later q' ≡ ok (false, q'))
        × (update_heartbeat between id later (some worker_id) q' ≡ ok (between q'))
  reclaim_disowns rows q' id j worker_id run_id status error later between h g s =
      let there : get_job id q'.jobs ≡ some (requeue j) = rw s at (row_after rows q' h id j g) in
      let (moved, finished, beat) =
        lost_claim_writes_nothing id q' (requeue j) (swept_of_ok rows q' h).1 there worker_id run_id
          status error later between (λ e. ground arith) in
      (there, moved, finished, beat)
