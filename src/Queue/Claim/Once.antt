-- ===== src/Queue/Claim/Once.antt =====
-- Two calls of `claim_next` of src/carve/core/state/job_queue.py in a row.
use carve.Common.{
  ℕ, String, Bool, Option, some, ◌≡◌, ◌≢◌, refl, arith, inl, inr, string_eq, nat_eq, ◌==◌, ap,
}
use mathlib.Core.Option.{some-injective}
use carve.Queue.Table.{Job, Queue, queued, job_claimed, ok, get_job, update_where, emit}
use carve.Queue.Rows.{WellFormed}
use carve.Queue.Single.{IsRow, get_job_of_row, get_job-update_where, jobs-emit}
use carve.Queue.Claim.{take_claim, claim_next}
use carve.Queue.Claim.Oldest.{claim_next_oldest}

-- What a claim that returned a job did.
pub record Took (q : Queue) (worker_id : String) (tenant_id now : ℕ) (j : Job) (q' : Queue)
    : Type 0 where
  pub row : Job
  pub is_row : IsRow row q.jobs
  pub was_queued : row.status ≡ queued
  pub returned : j ≡ take_claim worker_id now row
  pub left : q'.jobs ≡ update_where (λ k. k.id == row.id) (take_claim worker_id now) q.jobs
  pub still_formed : WellFormed q'.jobs

module _ (locked : String → Bool) (worker_id : String) (worker_label : Option String)
    (tenant_id now : ℕ) (q : Queue) where
  pub claim-Took :
      (j : Job) (q' : Queue)
      → WellFormed q.jobs
      → claim_next locked worker_id worker_label tenant_id now q ≡ ok (some j, q')
      → Took q worker_id tenant_id now j q'
  claim-Took j q' w h = elim (claim_next_oldest locked worker_id worker_label tenant_id now q w) [
    | inl n ↦ absurd (cc (n.1))
    | inr (i, may, first, after, e) ↦
        let s : (j ≡ take_claim worker_id now i)
            × (q'
                ≡ emit (job_claimed i.id worker_id) (record q {
                  jobs = update_where (λ k. k.id == i.id) (take_claim worker_id now) q.jobs;
                })) =
          (cc, cc) in
        let l : q'.jobs ≡ update_where (λ k. k.id == i.id) (take_claim worker_id now) q.jobs =
          rw s.1 (jobs-emit _ _) in
        record {
          row = i;
          is_row = first.0;
          was_queued = may.is_waiting;
          returned = s.0;
          left = l;
          still_formed = rw l after;
        }
  ]

module _ (locked locked' : String → Bool) (worker_id worker_id' : String)
    (worker_label worker_label' : Option String) (tenant_id tenant_id' now now' : ℕ)
    (q q' q'' : Queue) (j k : Job) where
  -- Two claims in a row, by any workers with any labels, at any times and under any locks, return
  -- jobs with different ids.
  pub claims_differ :
      WellFormed q.jobs
      → claim_next locked worker_id worker_label tenant_id now q ≡ ok (some j, q')
      → claim_next locked' worker_id' worker_label' tenant_id' now' q' ≡ ok (some k, q'')
      → j.id ≢ k.id
  claims_differ w h h' same =
      let a = claim-Took locked worker_id worker_label tenant_id now q j q' w h in
      let b =
        claim-Took locked' worker_id' worker_label' tenant_id' now' q' k q'' a.still_formed h' in
      let before_it = get_job_of_row a.row q.jobs w.ids_once a.is_row in
      let now_there =
        get_job-update_where a.row.id (λ x. x.id == a.row.id) (take_claim worker_id now) q.jobs
          (λ x. refl) a.row before_it in
      let other = get_job_of_row b.row q'.jobs a.still_formed.ids_once b.is_row in
      let there : get_job a.row.id q'.jobs ≡ some (take_claim worker_id now a.row) =
        rw a.left (ground (arith, now_there)) in
      let ids : b.row.id ≡ a.row.id = cc (a.returned, b.returned, same) in
      let same_row : b.row ≡ take_claim worker_id now a.row =
        some-injective _ _ (cc (rw ids at other, there)) in
      cc (ap (λ x. x.status) same_row, b.was_queued)
