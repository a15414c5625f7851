-- ===== src/Queue/Enqueue/Outcome.antt =====
-- The two outcomes of `enqueue_scheduled` of src/carve/core/state/job_queue.py that the scheduler
-- tells apart.
use carve.Common.{
  ℕ, String, true, [], ◌∷◌, ◌++◌, ◌||◌, not, ◌≡◌, refl, Bool-cases, inl, inr, string_eq, nat_eq,
}
use carve.Queue.Table.{Job, Queue, Result, ok, err, is_queued, occupied}
use carve.Queue.Rows.{store-cases}
use carve.Queue.Single.{jobs-emit}
use carve.Queue.Enqueue.{Request, is_duplicate, new_job, insert_job, enqueue_scheduled}
use carve.Queue.Enqueue.Dedup.{scheduled}

-- A success appends the job; the duplicate error means that a job is queued.
abbrev pub Settles : Request → Queue → Job → Result (Job × Queue) → Type 0
Settles r q j (ok (k, q')) = q'.jobs ≡ q.jobs ++ (j ∷ [])
Settles r q j (err e) =
    (not (is_duplicate e) || occupied is_queued r.pipeline r.tenant_id q.jobs) ≡ true

insert_job-Settles : (r : Request) (q : Queue) (j : Job) → Settles r q j (insert_job j q)
unfolding insert_job
insert_job-Settles r q j = elim (store-cases (q.jobs ++ (j ∷ []))) [
  | inl e ↦ rw e (jobs-emit _ _)
  | inr e ↦ rw e refl
]

pub enqueue_scheduled-Settles :
    (job_id : String) (now : ℕ) (r : Request) (q : Queue)
    → Settles r q (new_job job_id now (scheduled r)) (enqueue_scheduled job_id now r q)
unfolding enqueue_scheduled
enqueue_scheduled-Settles job_id now r q =
    elim (Bool-cases (occupied is_queued r.pipeline r.tenant_id q.jobs)) [
      | inl busy ↦ rw busy busy
      | inr free ↦ rw free (insert_job-Settles r q (new_job job_id now (scheduled r)))
    ]
