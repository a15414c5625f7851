-- ===== src/Queue/Transitions/Exact.antt =====
-- `transition_to_running`, `mark_finished` and `release_claim` of src/carve/core/state/job_queue.py
-- on a job that exists.
use carve.Common.{
  ℕ, ◌+◌, ◌≤◌, String, Bool, true, false, Option, some, List, ◌≡◌, refl, arith, inl, inr,
  if◌then◌else◌, string_eq, nat_eq, option_eq, ◌==◌, Bool-cases, sym, ◌∙◌,
}
use carve.Queue.Table.{
  Job, Status, Queue, ok, err, pipeline_already_running, integrity_error, is_queued, is_running,
  is_claimed, in_slot, occupied, get_job, store, update_where, any_row,
}
use carve.Queue.Rows.{
  one_if, count_if, in_index, with_id, WellFormed, update_where-WellFormed, store_of_WellFormed,
  not_stored, count-update_where-le, count_of_free, count_of_occupied,
}
use carve.Queue.Single.{IsRow, OnlyId, IsRow-of_get_job, count-update_row, store_unchanged}
use carve.Queue.Transitions.{
  claim_of, hold_of, start_run, finish, transition_to_running, mark_finished, release_claim,
  drop_claim,
}
use carve.Queue.Transitions.Guarded.{claim_of-OnlyId, by_claim, by_hold}

-- One row moves into an index where it was not: this is stored exactly when its slot was free.
module _ (at : Status → Bool) (test : Job → Bool) (f : Job → Job) (j : Job) (jobs : List Job)
    (w : WellFormed jobs) (row : IsRow j jobs) (only : OnlyId j.id test)
    (passes : test j ≡ true) where
  moved_count :
      at j.status ≡ false
      → at (f j).status ≡ true
      → (f j).pipeline ≡ j.pipeline
      → (f j).tenant_id ≡ j.tenant_id
      → (p : String) (t : ℕ)
      → count_if (in_index at p t) (update_where test f jobs)
        ≡ count_if (in_index at p t) jobs + one_if (in_slot p t j)
  moved_count out into p_same t_same p t =
      ground (arith, count-update_row (in_index at p t) test f j jobs w.ids_once row only passes)

  moved_once :
      at j.status ≡ false
      → at (f j).status ≡ true
      → (f j).pipeline ≡ j.pipeline
      → (f j).tenant_id ≡ j.tenant_id
      → occupied at j.pipeline j.tenant_id jobs ≡ false
      → ((p : String) (t : ℕ) → count_if (in_index at p t) jobs ≤ 1)
      → (p : String) (t : ℕ) → count_if (in_index at p t) (update_where test f jobs) ≤ 1
  moved_once out into p_same t_same free once p t = ground (
    arith,
    moved_count out into p_same t_same p t,
    once p t,
    count_of_free at j.pipeline j.tenant_id jobs free,
  )

  moved_twice :
      at j.status ≡ false
      → at (f j).status ≡ true
      → (f j).pipeline ≡ j.pipeline
      → (f j).tenant_id ≡ j.tenant_id
      → occupied at j.pipeline j.tenant_id jobs ≡ true
      → 2 ≤ count_if (in_index at j.pipeline j.tenant_id) (update_where test f jobs)
  moved_twice out into p_same t_same busy = ground (
    arith,
    moved_count out into p_same t_same j.pipeline j.tenant_id,
    count_of_occupied at j.pipeline j.tenant_id jobs busy,
  )

-- The row that a key finds, as a part of the table.
module _ (id : String) (jobs : List Job) (j : Job) (w : WellFormed jobs)
    (g : get_job id jobs ≡ some j) (test : Job → Bool) (only : OnlyId id test)
    (passes : test j ≡ true) where
  found-IsRow : IsRow j jobs
  found-IsRow = (IsRow-of_get_job id jobs j g).0

  found_only : OnlyId j.id test
  found_only k h = only k h ∙ sym (IsRow-of_get_job id jobs j g).1

  start_stored :
      (run_id : String) (now : ℕ)
      → is_claimed j.status ≡ true
      → store (update_where test (start_run run_id now) jobs) ≡ (
          if occupied is_running j.pipeline j.tenant_id jobs
          then err integrity_error
          else ok (update_where test (start_run run_id now) jobs))
  start_stored run_id now c =
      let f = start_run run_id now in
      elim (Bool-cases (occupied is_running j.pipeline j.tenant_id jobs)) [
        | inl busy ↦ rw busy (
            not_stored _ λ bad. absurd (
              omega (
                arith,
                bad.running_once j.pipeline j.tenant_id,
                moved_twice is_running test f j jobs w found-IsRow found_only passes (ground arith)
                    refl refl refl busy,
              )))
        | inr free ↦ rw free (
            store_of_WellFormed _ (record {
              ids_once = λ i. omega (
                arith,
                w.ids_once i,
                count-update_where-le (with_id i) test f jobs (λ k _. omega arith),
              );
              queued_once = λ p t. omega (
                arith,
                w.queued_once p t,
                count-update_where-le (in_index is_queued p t) test f jobs (λ k _. omega arith),
              );
              running_once =
                  moved_once is_running test f j jobs w found-IsRow found_only passes (ground arith)
                    refl refl refl free w.running_once;
            }))
      ]

  requeue_stored :
      is_queued j.status ≡ false
      → store (update_where test drop_claim jobs) ≡ (
          if occupied is_queued j.pipeline j.tenant_id jobs
          then err integrity_error
          else ok (update_where test drop_claim jobs))
  requeue_stored c = elim (Bool-cases (occupied is_queued j.pipeline j.tenant_id jobs)) [
    | inl busy ↦ rw busy (
        not_stored _ λ bad. absurd (
          omega (
            arith,
            bad.queued_once j.pipeline j.tenant_id,
            moved_twice is_queued test drop_claim j jobs w found-IsRow found_only passes c refl refl
                refl busy,
          )))
    | inr free ↦ rw free (
        store_of_WellFormed _ (record {
          ids_once = λ i. omega (
            arith,
            w.ids_once i,
            count-update_where-le (with_id i) test drop_claim jobs (λ k _. omega arith),
          );
          queued_once =
              moved_once is_queued test drop_claim j jobs w found-IsRow found_only passes c refl
                refl refl free w.queued_once;
          running_once = λ p t. omega (
            arith,
            w.running_once p t,
            count-update_where-le (in_index is_running p t) test drop_claim jobs
                (λ k _. omega arith),
          );
        }))
  ]

module _ (id : String) (q : Queue) (j : Job) (w : WellFormed q.jobs)
    (g : get_job id q.jobs ≡ some j) where
  -- A guarded transition of a job that exists: without the claim it is a no-op that reports `false`;
  -- with it, it raises `PipelineAlreadyRunning` exactly when a job of the pipeline and tenant runs,
  -- and else lands.
  pub transition_exact :
      (worker_id run_id : String) (now : ℕ)
      → transition_to_running id run_id (some worker_id) now q ≡ (
          if claim_of id worker_id j
          then (if occupied is_running j.pipeline j.tenant_id q.jobs
              then err pipeline_already_running
              else ok (
                true,
                record q {
                  jobs = update_where (claim_of id worker_id) (start_run run_id now) q.jobs;
                },
              ))
          else ok (false, q))
  unfolding transition_to_running
  transition_exact worker_id run_id now =
      let test = claim_of id worker_id in
      let same = by_claim id q j w g worker_id in
      elim (Bool-cases (test j)) [
        | inr n ↦
            let none_matches : any_row test q.jobs ≡ false = ground (arith, same) in
            rw (n, store_unchanged test (start_run run_id now) q.jobs w none_matches, none_matches)
        | inl y ↦
            let matches : any_row test q.jobs ≡ true = ground (arith, same) in
            let stored =
              start_stored id q.jobs j w g test (claim_of-OnlyId id worker_id) y run_id now
                (ground arith) in
            rw (stored, y, matches) (ground arith)
      ]

  -- A guarded finish with a terminal status violates no index: it lands exactly when the worker
  -- holds the job, and else it is a no-op that reports `false`.
  pub finish_exact :
      (worker_id : String) (status : Status) (error : Option String) (now : ℕ)
      → is_queued status ≡ false
      → is_running status ≡ false
      → mark_finished id status error (some worker_id) now q ≡ (
          if hold_of id worker_id j
          then ok (
            true,
            record q {
              jobs = update_where (hold_of id worker_id) (finish status error now) q.jobs;
            },
          )
          else ok (false, q))
  unfolding mark_finished
  finish_exact worker_id status error now nq nr =
      let test = hold_of id worker_id in
      let f = finish status error now in
      let same = by_hold id q j w g worker_id in
      elim (Bool-cases (test j)) [
        | inr n ↦
            let none_matches : any_row test q.jobs ≡ false = ground (arith, same) in
            rw (n, store_unchanged test f q.jobs w none_matches, none_matches)
        | inl y ↦
            let matches : any_row test q.jobs ≡ true = ground (arith, same) in
            let after =
              update_where-WellFormed test f q.jobs w (λ k. refl) (λ p t k _. rw nq (omega arith))
                (λ p t k _. rw nr (omega arith)) in
            rw (store_of_WellFormed _ after, y, matches)
      ]

  -- Releasing the claim on a job that is not queued raises an `IntegrityError`, which the method
  -- does not handle, exactly when the pipeline of the tenant has another job queued.
  pub release_exact :
      is_queued j.status ≡ false
      → release_claim id q ≡ (
          if occupied is_queued j.pipeline j.tenant_id q.jobs
          then err integrity_error
          else ok (record q { jobs = update_where (λ k. k.id == id) drop_claim q.jobs }))
  unfolding release_claim
  release_exact c =
      let test : Job → Bool = λ k. k.id == id in
      let same = (IsRow-of_get_job id q.jobs j g).1 in
      let stored =
        requeue_stored id q.jobs j w g test (λ k h. ground arith) (ground (arith, same)) c in
      rw (g, release_claim) (rw stored (ground arith))
