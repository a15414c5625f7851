-- ===== src/Queue/Enqueue/Stored.antt =====
-- What `enqueue_scheduled` and `enqueue_manual` of src/carve/core/state/job_queue.py store when they
-- succeed.
use carve.Common.{
  ℕ, String, Bool, none, [], ◌∷◌, ◌++◌, ◌≡◌, ◌⊎◌, inl, inr, Bool-cases, Option-cases, string_eq,
  nat_eq, ◌&&◌,
}
use carve.Queue.Table.{Job, Queue, ok, is_queued, in_slot, occupied, update_where, job_queued, emit}
use carve.Queue.Rows.{WellFormed, WellFormed-of_store, store-cases}
use carve.Queue.Single.{jobs-emit}
use carve.Queue.Enqueue.{
  Request, new_job, insert_job, enqueue_scheduled, enqueue_manual, refresh, find_queued,
  queued_event,
}
use carve.Queue.Enqueue.Dedup.{scheduled}

-- A row is appended.
abbrev pub Appended : Job → Queue → Queue → Type 0
Appended j q q' = WellFormed q'.jobs × (q.jobs ++ (j ∷ []) ≡ q'.jobs)

insert_job-Appended : (j k : Job) (q q' : Queue) → insert_job j q ≡ ok (k, q') → Appended j q q'
unfolding insert_job
insert_job-Appended j k q q' h = elim (store-cases (q.jobs ++ (j ∷ []))) [
  | inl e ↦
      let same : q'.jobs ≡ q.jobs ++ (j ∷ []) =
        let p : q' ≡ queued_event j (record q { jobs = q.jobs ++ (j ∷ []) }) = cc (rw e at h) in
        rw p (jobs-emit _ _) in
      (rw same (WellFormed-of_store _ _ e).1, rw same)
  | inr e ↦ absurd (cc (rw e at h))
]

pub enqueue_scheduled-Appended :
    (id : String) (now : ℕ) (r : Request) (j : Job) (q q' : Queue)
    → enqueue_scheduled id now r q ≡ ok (j, q')
    → Appended (new_job id now (scheduled r)) q q'
unfolding enqueue_scheduled
enqueue_scheduled-Appended id now r j q q' h =
    elim (Bool-cases (occupied is_queued r.pipeline r.tenant_id q.jobs)) [
      | inl busy ↦ absurd (cc (rw busy at h))
      | inr free ↦ insert_job-Appended (new_job id now (scheduled r)) j q q' (rw free at h)
    ]

abbrev pub in_request : Request → Job → Bool
in_request r k = is_queued k.status && in_slot r.pipeline r.tenant_id k

-- A row is appended, or the queued one is refreshed.
pub enqueue_manual-stored :
    (id : String) (now : ℕ) (r : Request) (j : Job) (q q' : Queue)
    → enqueue_manual id now r q ≡ ok (j, q')
    → Appended (new_job id now (record r { scheduled_for = none })) q q'
      ⊎ (WellFormed q'.jobs × (update_where (in_request r) (refresh r) q.jobs ≡ q'.jobs))
unfolding enqueue_manual
enqueue_manual-stored id now r j q q' h =
    elim (Option-cases (find_queued r.pipeline r.tenant_id q.jobs)) [
      | inl e ↦ inl (
          insert_job-Appended (new_job id now (record r { scheduled_for = none })) j q q'
            (rw (e, enqueue_manual) at h))
      | inr (k, e) ↦
          let rows = update_where (in_request r) (refresh r) q.jobs in
          elim (store-cases rows) [
            | inl s ↦
                let same : q'.jobs ≡ rows =
                  let p : q'
                      ≡ emit (job_queued k.id r.pipeline r.target r.trigger none)
                          (record q { jobs = rows }) =
                    cc (rw (e, enqueue_manual, s) at h) in
                  rw p (jobs-emit _ _) in
                inr (rw same (WellFormed-of_store _ _ s).1, rw same)
            | inr s ↦ absurd (cc (rw (e, enqueue_manual, s) at h))
          ]
    ]
