-- ===== src/Runtime/Worker/Resolves.antt =====
-- A claim never outlives `run_once` of src/carve/runtime/worker.py.
use carve.Common.{String, Bool, true, false, Option, none, some, ◌≡◌}
use carve.Queue.Table.{Job, any_row}
use carve.Queue.Transitions.{hold_of}
use carve.Queue.Rows.{WellFormed}
use carve.Pipeline.Execute.{RunResult}
use carve.Runtime.Store.{Store}
use carve.Runtime.Call.{
  replied, World, give, at_claim, at_create_run, at_fail_job, ◌>>=◌, transaction,
}
use carve.Runtime.Call.Ensures.{
  Ensures, returns, ensured, Ensures-transaction, Ensures-bind, Ensures-attempt, Ensures-mono,
}
use carve.Runtime.Worker.{
  Context, fail_job, finalize, run_claimed, serve, run_once, conclude, serve_found,
}
use carve.Runtime.Worker.Claims.{FreshIn, Fresh, others-Fresh, Fair, Idle, Only}
use carve.Runtime.Worker.Moves.{Found, claim-Commits}
use carve.Runtime.Worker.Quiet.{create-Keeps}
use carve.Runtime.Worker.Failure.{Anything, Idle-stable, fail_job-Idle, finalize-Idle}
use carve.Runtime.Worker.Body.{Ran, run_claimed-Ran}

module _ (ctx : Context) (w : World) (fair : Fair ctx.worker_id w) where
  module _ (works : w.down at_fail_job ≡ false) where
    failed-Idle :
        (j : Job) (run_id : Option String) (error : String) (s : Store)
        → Only ctx.worker_id j.id s
        → Ensures
            (λ _. Idle ctx.worker_id)
            Anything
            ((fail_job ctx w j run_id error >>= λ _. give true) s)
    failed-Idle j run_id error s o =
        Ensures-bind (fail_job ctx w j run_id error) _ s
          (fail_job-Idle ctx w fair j run_id error s works o) (λ n s' i. returns i)

    after_run :
        (j : Job) (run_id : String) (result : Option RunResult) (s : Store)
        → Ran ctx w fair j.id result s
        → Ensures (λ _. Idle ctx.worker_id) Anything (conclude ctx w j run_id result s)
    unfolding conclude
    after_run j run_id none s i = returns i
    after_run j run_id (some r) s o =
        Ensures-bind (finalize ctx w j run_id r) _ s (finalize-Idle ctx w fair j run_id r s o)
          (λ n s' i. returns i)

    serve-Idle :
        (j : Job) (s : Store)
        → Fresh ctx.worker_id j.id s
        → Ensures (λ _. Idle ctx.worker_id) Anything (serve ctx w j s)
    unfolding serve
    serve-Idle j s f =
        Ensures-attempt _ _ _ s
          (create-Keeps ctx w (FreshIn ctx.worker_id j.id)
            (λ site s'. others-Fresh ctx.worker_id w fair site s' j.id) at_create_run _ s f)
          (λ e s' k. failed-Idle j none (ctx.text e) s' k.only)
          (λ run_id s' k.
            Ensures-attempt (run_claimed ctx w j run_id) _ _ s'
              (run_claimed-Ran ctx w fair j run_id s' k)
              (λ e s'' o. failed-Idle j (some run_id) (ctx.text e) s'' o)
              (λ result s'' ran. after_run j run_id result s'' ran))

    after_claim :
        (found : Option Job) (s : Store)
        → Found ctx.worker_id found s
        → Ensures (λ _. Idle ctx.worker_id) Anything (serve_found ctx w found s)
    unfolding serve_found
    after_claim none s i = returns i
    after_claim (some j) s f = serve-Idle j s f

    run_once-Idle :
        (s : Store)
        → Idle ctx.worker_id s
        → Ensures (λ _. Idle ctx.worker_id) Anything (run_once ctx w s)
    unfolding run_once
    run_once-Idle s i =
        let now = Idle-stable ctx w fair at_claim s i in
        Ensures-bind (transaction w at_claim _) _ s
          (Ensures-mono {E = Idle ctx.worker_id} {E' = Anything} _
            (Ensures-transaction w at_claim _ s now (
              claim-Commits ctx.worker_id ctx.locked ctx.label (w.clock at_claim)
                (w.others at_claim s) now))
            (λ found s' k. k) (λ s' k. tt))
          (λ found s' k. after_claim found s' k)

    -- A worker that holds no job holds none when `run_once` returns, whichever calls of the
    -- database failed before, whatever `execute_pipeline` did, and whatever the reaper and the other
    -- workers did in between, as long as they claim nothing in its name and the write that fails a
    -- job is answered: a claim is finished, released, or lost to the reaper, never left behind.
    pub run_once-resolves :
        (s s' : Store) (ran : Bool) (id : String)
        → Idle ctx.worker_id s
        → run_once ctx w s ≡ replied ran s'
        → WellFormed s'.queue.jobs × (any_row (hold_of id ctx.worker_id) s'.queue.jobs ≡ false)
    run_once-resolves s s' ran id i e =
        let left = ensured (rw e at (run_once-Idle s i)) in (left.formed, left.none_held id)
