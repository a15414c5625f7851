-- ===== src/Runtime/Worker/Body.antt =====
-- The body of the `try` of `run_once` of src/carve/runtime/worker.py.
use carve.Common.{
  String, Bool, true, false, Option, none, some, zero, suc, ℕ, if◌then◌else◌, Bool-cases, inl, inr,
}
use carve.Queue.Table.{Job, run_has_started}
use carve.Pipeline.Execute.{Outcome, returned, raised, RunResult}
use carve.Runtime.Store.{Store, run_cancelled, run_running}
use carve.Runtime.Call.{
  World, give, raise, at_transition, at_release, at_cancel, at_running, at_execute, at_beat,
  at_stamp, execute_error, ◌>>=◌, transaction, suppress,
}
use carve.Runtime.Call.Ensures.{
  Ensures, returns, raises, Ensures-transaction, Ensures-bind, Ensures-attempt, Ensures-suppress,
  Ensures-mono,
}
use carve.Runtime.Worker.{
  Context, emit_event, set_run, Attempt, landed, claim_lost, busy, is_busy, stamp_if, one_beat,
  heartbeat_loop, execute_job, start_job, run_claimed, after_start,
}
use carve.Runtime.Worker.Claims.{Fresh, others-Fresh, Fair, Idle, Only, Idle-Only, IdleIn, OnlyIn}
use carve.Runtime.Worker.Moves.{
  Started, start-Commits, release-Commits, read-Commits, stamp-Commits,
}
use carve.Runtime.Worker.Quiet.{set_run-Keeps, emit_event-Keeps}
use carve.Runtime.Worker.Failure.{Idle-stable, Only-stable}

module _ (ctx : Context) (w : World) (fair : Fair ctx.worker_id w) where
  -- After the `try` body the worker holds the job only if it was executed.
  abbrev pub Ran : String → Option RunResult → Store → Type 0
  Ran job_id none s = Idle ctx.worker_id s
  Ran job_id (some r) s = Only ctx.worker_id job_id s

  -- What an attempt to start leaves: a conflict keeps the claim, a lost claim is no claim.
  abbrev Tried : String → Attempt → Store → Type 0
  Tried job_id landed s = Only ctx.worker_id job_id s
  Tried job_id claim_lost s = Idle ctx.worker_id s
  Tried job_id busy s = Only ctx.worker_id job_id s

  Tried-after :
      (job_id : String) (moved : Bool) (s : Store)
      → Started ctx.worker_id job_id moved s
      → Tried job_id (if moved then landed else claim_lost) s
  Tried-after job_id true s k = k
  Tried-after job_id false s k = k

  start-Tried :
      (j : Job) (run_id : String) (s : Store)
      → Fresh ctx.worker_id j.id s
      → Ensures (Tried j.id) (Only ctx.worker_id j.id) (start_job ctx w j run_id s)
  unfolding start_job
  start-Tried j run_id s f =
      let now = others-Fresh ctx.worker_id w fair at_transition s j.id f in
      Ensures-attempt _ _ _ s
        (Ensures-transaction w at_transition _ s now.only (
          start-Commits ctx.worker_id j.id run_id (w.clock at_transition) (w.others at_transition s)
            now))
        (λ e s' k. elim (Bool-cases (is_busy e)) [
          | inl b ↦ rw b (returns k)
          | inr n ↦ rw n (raises k)
        ])
        (λ moved s' k. returns (Tried-after j.id moved s' k))

  stamp-Only :
      (job_id : String) (beats : ℕ) (mine : Bool) (s : Store)
      → Only ctx.worker_id job_id s
      → Ensures
          (λ _. Only ctx.worker_id job_id)
          (Only ctx.worker_id job_id)
          (stamp_if ctx w job_id beats mine s)
  stamp-Only job_id beats false s o = returns o
  stamp-Only job_id beats true s o =
      let now = Only-stable ctx w fair job_id (at_stamp beats) s o in
      Ensures-transaction w (at_stamp beats) _ s now (
        stamp-Commits ctx.worker_id job_id (w.others (at_stamp beats) s) now
          (w.clock (at_beat beats)))

  beat-Only :
      (job_id : String) (beats : ℕ) (s : Store)
      → Only ctx.worker_id job_id s
      → Ensures
          (λ _. Only ctx.worker_id job_id)
          (Only ctx.worker_id job_id)
          (one_beat ctx w job_id beats s)
  unfolding one_beat
  beat-Only job_id beats s o =
      let now = Only-stable ctx w fair job_id (at_beat beats) s o in
      Ensures-bind (transaction w (at_beat beats) _) _ s
        (Ensures-transaction w (at_beat beats) _ s now
          (read-Commits ctx.worker_id job_id (w.others (at_beat beats) s) now))
        (λ mine s' k. stamp-Only job_id beats mine s' k)

  beats-Only :
      (job_id : String) (beats : ℕ) (s : Store)
      → Only ctx.worker_id job_id s
      → Ensures
          (λ _. Only ctx.worker_id job_id)
          (Only ctx.worker_id job_id)
          (heartbeat_loop ctx w job_id beats s)
  unfolding heartbeat_loop
  beats-Only job_id zero s o = returns o
  beats-Only job_id (suc beats) s o =
      Ensures-bind (suppress _) _ s
        (Ensures-mono _
          (Ensures-suppress _ s (beat-Only job_id beats s o) (λ _ s' k. k) (λ s' k. k))
          (λ _ s' k. k) (λ s' k. absurd k))
        λ n s' k. beats-Only job_id beats s' k

  execute-Only :
      (j : Job) (run_id : String) (s : Store)
      → Only ctx.worker_id j.id s
      → Ensures (Ran j.id) (Only ctx.worker_id j.id) (execute_job ctx w j run_id s)
  unfolding execute_job
  execute-Only j run_id s o = by_outcome (ctx.execute j.pipeline j.target run_id)
    where
      by_outcome :
          (outcome : Outcome RunResult)
          → Ensures (Ran j.id) (Only ctx.worker_id j.id) (elim outcome [
            | returned result ↦ give (some result) (w.others at_execute s)
            | raised message ↦ raise (execute_error message) (w.others at_execute s)
          ])
      by_outcome (returned r) = returns (Only-stable ctx w fair j.id at_execute s o)
      by_outcome (raised m) = raises (Only-stable ctx w fair j.id at_execute s o)

  -- A backed-off or lost run is cancelled.
  cancel-Idle :
      (job_id run_id reason : String) (s : Store)
      → Idle ctx.worker_id s
      → Ensures
          (Ran job_id)
          (Only ctx.worker_id job_id)
          ((set_run ctx w at_cancel run_id run_cancelled (some reason) >>= λ _. give none) s)
  cancel-Idle job_id run_id reason s i =
      Ensures-bind (set_run ctx w at_cancel run_id run_cancelled (some reason)) _ s
        (Ensures-mono _
          (set_run-Keeps ctx w (IdleIn ctx.worker_id) (Idle-stable ctx w fair) at_cancel run_id
            run_cancelled (some reason) s i)
          (λ _ s' k. k) (λ s' k. Idle-Only ctx.worker_id job_id s' k))
        (λ n s' k. returns k)

  -- The two ways to back off, and the execution.
  after_try :
      (j : Job) (run_id : String) (tried : Attempt) (s : Store)
      → Tried j.id tried s
      → Ensures (Ran j.id) (Only ctx.worker_id j.id) (after_start ctx w j run_id tried s)
  unfolding after_start
  after_try j run_id busy s o =
      let now = Only-stable ctx w fair j.id at_release s o in
      Ensures-bind (transaction w at_release _) _ s
        (Ensures-transaction w at_release _ s now
          (release-Commits ctx.worker_id j.id (w.others at_release s) now))
        (λ n s' i. cancel-Idle j.id run_id "pipeline already running" s' i)
  after_try j run_id claim_lost s i = cancel-Idle j.id run_id "claim lost (reclaimed by reaper)" s i
  after_try j run_id landed s o =
      let Q = OnlyIn ctx.worker_id j.id in
      let stable = Only-stable ctx w fair j.id in
      Ensures-bind (set_run ctx w at_running run_id run_running none) _ s
        (set_run-Keeps ctx w Q stable at_running run_id run_running none s o)
        λ n s₁ o₁.
          Ensures-bind (emit_event ctx w (run_has_started run_id j.id j.pipeline)) _ s₁
            (emit_event-Keeps ctx w Q stable (run_has_started run_id j.id j.pipeline) s₁ o₁)
            λ m s₂ o₂.
              Ensures-bind (heartbeat_loop ctx w j.id ctx.beats) _ s₂
                (beats-Only j.id ctx.beats s₂ o₂) (λ l s₃ o₃. execute-Only j run_id s₃ o₃)

  pub run_claimed-Ran :
      (j : Job) (run_id : String) (s : Store)
      → Fresh ctx.worker_id j.id s
      → Ensures (Ran j.id) (Only ctx.worker_id j.id) (run_claimed ctx w j run_id s)
  unfolding run_claimed
  run_claimed-Ran j run_id s f =
      Ensures-bind (start_job ctx w j run_id) _ s (start-Tried j run_id s f)
        (λ tried s' k. after_try j run_id tried s' k)
