-- ===== src/Runtime/Worker/Failure.antt =====
-- How `_fail_job` and `_finalize` of src/carve/runtime/worker.py end a claim.
use carve.Common.{String, false, Option, none, some, ◌≡◌, refl}
use carve.Queue.Table.{Job, Status, is_held, is_queued, failed}
use carve.Pipeline.FailureModes.{RunStatus, run_succeeded, run_failed as status_failed, run_partial}
use carve.Pipeline.Execute.{RunResult}
use carve.Runtime.Store.{Store, run_failed}
use carve.Runtime.Call.{
  Site, World, at_fail_job, at_fail_run, at_finish_run, at_finish_job, suppress,
}
use carve.Runtime.Call.Ensures.{
  Ensures, returns, Ensures-transaction, Ensures-bind, Ensures-suppress, Ensures-mono,
  Ensures-working, never_aborts,
}
use carve.Runtime.Worker.{
  Context, set_run, finish_job, fail_run, report_failed, fail_job, finalize, or_empty,
  run_status_by_result, job_status_by_result, error_of,
}
use carve.Runtime.Worker.Claims.{Fair, Idle, Only, others-Idle, others-Only, IdleIn, OnlyIn}
use carve.Runtime.Worker.Moves.{finish-Commits}
use carve.Runtime.Worker.Quiet.{set_run-Keeps, fire-Keeps, report_failed-Keeps, report_result-Keeps}

-- No claim is made about what an exception of the last writes leaves.
abbrev pub Anything : Store → Type 0
Anything s = Unit

job_status-terminal :
    (status : RunStatus)
    → (is_held (job_status_by_result status) ≡ false)
      × (is_queued (job_status_by_result status) ≡ false)
job_status-terminal run_succeeded = (refl, refl)
job_status-terminal status_failed = (refl, refl)
job_status-terminal run_partial = (refl, refl)

module _ (ctx : Context) (w : World) (fair : Fair ctx.worker_id w) where
  pub Idle-stable :
      (site : Site) (s : Store) → Idle ctx.worker_id s → Idle ctx.worker_id (w.others site s)
  Idle-stable site s i = others-Idle ctx.worker_id w fair site s i

  pub Only-stable :
      (job_id : String) (site : Site) (s : Store)
      → Only ctx.worker_id job_id s
      → Only ctx.worker_id job_id (w.others site s)
  Only-stable job_id site s o = others-Only ctx.worker_id w fair site s job_id o

  -- A finish with a terminal status leaves the worker idle, unless the database fails.
  finish-Idle :
      (site : Site) (j : Job) (status : Status) (error : Option String) (s : Store)
      → is_held status ≡ false
      → is_queued status ≡ false
      → Only ctx.worker_id j.id s
      → Ensures
          (λ landed. Idle ctx.worker_id)
          (Only ctx.worker_id j.id)
          (finish_job ctx w site j.id status error s)
  unfolding finish_job
  finish-Idle site j status error s free waits o =
      Ensures-transaction w site _ s (Only-stable j.id site s o) (
        never_aborts (
          finish-Commits ctx.worker_id j.id (w.others site s) (Only-stable j.id site s o) status
            error (w.clock site) free waits))

  fail_run-Only :
      (j : Job) (run_id : Option String) (error : String) (s : Store)
      → Only ctx.worker_id j.id s
      → Ensures (λ _. Only ctx.worker_id j.id) Anything (fail_run ctx w run_id error s)
  unfolding fail_run
  fail_run-Only j none error s o = returns o
  fail_run-Only j (some run_id) error s o =
      Ensures-mono _
        (Ensures-suppress (set_run ctx w at_fail_run run_id run_failed (some error)) s
          (set_run-Keeps ctx w (OnlyIn ctx.worker_id j.id) (Only-stable j.id) at_fail_run run_id
            run_failed (some error) s o)
          (λ a s' k. k) (λ s' k. k))
        (λ a s' k. k) (λ s' k. tt)

  fail_write :
      (j : Job) (error : String) (s : Store)
      → w.down at_fail_job ≡ false
      → Only ctx.worker_id j.id s
      → Ensures
          (λ _. Idle ctx.worker_id)
          Anything
          (suppress (finish_job ctx w at_fail_job j.id failed (some error)) s)
  unfolding finish_job
  fail_write j error s works o =
      Ensures-mono _
        (Ensures-suppress (finish_job ctx w at_fail_job j.id failed (some error)) s
          (Ensures-working w at_fail_job _ s works (
            finish-Commits ctx.worker_id j.id (w.others at_fail_job s)
              (Only-stable j.id at_fail_job s o) failed (some error) (w.clock at_fail_job) refl
              refl))
          (λ a s' k. k) (λ s' k. absurd k))
        (λ a s' k. k) (λ s' k. tt)

  pub fail_job-Idle :
      (j : Job) (run_id : Option String) (error : String) (s : Store)
      → w.down at_fail_job ≡ false
      → Only ctx.worker_id j.id s
      → Ensures (λ _. Idle ctx.worker_id) Anything (fail_job ctx w j run_id error s)
  unfolding fail_job
  fail_job-Idle j run_id error s works o =
      Ensures-bind (fail_run ctx w run_id error) _ s (fail_run-Only j run_id error s o) λ n s₁ o₁.
        Ensures-bind (suppress (finish_job ctx w at_fail_job j.id failed (some error))) _ s₁
          (fail_write j error s₁ works o₁)
          λ m s₂ i₂.
            Ensures-bind (report_failed ctx w run_id j error) _ s₂
              (Ensures-mono _
                (report_failed-Keeps ctx w (IdleIn ctx.worker_id) Idle-stable run_id j error s₂ i₂)
                (λ _ s' i. i) (λ s' i. tt))
              λ l s₃ i₃.
                Ensures-mono _
                  (fire-Keeps ctx w (IdleIn ctx.worker_id) Idle-stable j.pipeline
                    (or_empty ctx w run_id) j.target error s₃ i₃)
                  (λ _ s' i. i) (λ s' i. tt)

  pub finalize-Idle :
      (j : Job) (run_id : String) (result : RunResult) (s : Store)
      → Only ctx.worker_id j.id s
      → Ensures (λ _. Idle ctx.worker_id) Anything (finalize ctx w j run_id result s)
  unfolding finalize
  finalize-Idle j run_id result s o =
      let status = result.status in
      let (free, waits) = job_status-terminal status in
      Ensures-bind
        (set_run ctx w at_finish_run run_id (run_status_by_result status) (error_of status)) _ s
        (Ensures-mono _
          (set_run-Keeps ctx w (OnlyIn ctx.worker_id j.id) (Only-stable j.id) at_finish_run run_id
            (run_status_by_result status) (error_of status) s o)
          (λ _ s' k. k) (λ s' k. tt))
        λ n s₁ o₁.
          Ensures-bind
            (finish_job ctx w at_finish_job j.id (job_status_by_result status) (error_of status)) _
            s₁
            (Ensures-mono _
              (finish-Idle at_finish_job j (job_status_by_result status) (error_of status) s₁ free
                waits o₁)
              (λ _ s' k. k) (λ s' k. tt))
            λ m s₂ i₂.
              Ensures-mono _
                (report_result-Keeps ctx w (IdleIn ctx.worker_id) Idle-stable status run_id j s₂ i₂)
                (λ _ s' k. k) (λ s' k. tt)
