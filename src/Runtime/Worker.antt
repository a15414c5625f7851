-- ===== src/Runtime/Worker.antt =====
-- One worker: `run_once` and `worker_loop` of src/carve/runtime/worker.py and the heartbeat of
-- src/carve/runtime/heartbeat.py. Cancellation is not modelled: a loop ends after its last poll.
pub mod Claims
pub mod Moves
pub mod Quiet
pub mod Failure
pub mod Body
pub mod Resolves
use carve.Common.{
  ℕ, zero, suc, String, Bool, true, false, Option, none, some, List, [], ◌∷◌, ◌++◌, if◌then◌else◌,
}
use Prim.Native.String.{◌++◌ as ◌<>◌}
use carve.Pipeline.FailureModes.{RunStatus, run_succeeded, run_failed as status_failed, run_partial}
use carve.Pipeline.Execute.{Outcome, returned, raised, RunResult}
use carve.Queue.Table.{
  Job, Status, succeeded, failed, Queue, Event, Millis, pipeline_already_running, run_has_started,
  run_has_succeeded, run_has_failed,
}
use carve.Queue.Claim.{claim_next}
use carve.Queue.Transitions.{
  transition_to_running, mark_finished, release_claim, may_beat, stamp_heartbeat,
}
use carve.Runtime.Store.{
  Store, NoValue, no_value, Run, RunRowStatus, run_running, run_success, run_failed, run_cancelled,
  new_run, create_run, update_run_status, get_run, of_queue, of_queue_only, of_queue_read,
  register_worker, unregister_worker,
}
use carve.Runtime.Call.{
  Site, at_claim, at_create_run, at_transition, at_release, at_cancel, at_running, at_execute,
  at_fail_run, at_fail_job, at_finish_run, at_finish_job, at_read_run, at_register, at_unregister,
  at_beat, at_stamp, Raised, queue_error, execute_error, Call, World, give, raise, transaction,
  attempt, ◌>>=◌, suppress,
}

-- What a worker is given. `execute` is the outcome of `execute_pipeline` for a pipeline, a target
-- and a run, `beats` the number of beats that fall into it; `locked` are the rows that other
-- transactions hold at the claim, and `text` is `str(exc)`.
pub record Context : Type 0 where
  pub worker_id : String
  pub host : String
  pub pid : ℕ
  pub label : Option String
  pub emitter : Bool
  pub on_run_failed : Bool
  pub run_id : String
  pub execute : String → String → String → Outcome RunResult
  pub beats : ℕ
  pub locked : String → Bool
  pub text : Raised → String

-- _RUN_STATUS_BY_RESULT and _JOB_STATUS_BY_RESULT
abbrev pub run_status_by_result : RunStatus → RunRowStatus
run_status_by_result run_succeeded = run_success
run_status_by_result _ = run_failed

abbrev pub job_status_by_result : RunStatus → Status
job_status_by_result run_succeeded = succeeded
job_status_by_result _ = failed

-- None if result.status == "succeeded" else f"run {result.status}"
abbrev pub error_of : RunStatus → Option String
error_of run_succeeded = none
error_of status_failed = some "run failed"
error_of run_partial = some "run partial"

pub data Attempt : Type 0 where
  landed claim_lost busy : Attempt

-- except PipelineAlreadyRunning
abbrev pub is_busy : Raised → Bool
is_busy (queue_error pipeline_already_running) = true
is_busy _ = false

module _ (ctx : Context) (w : World) where
  -- `_emit_event`, with a sink that records
  unfoldable pub emit_event : Event → Call NoValue
  emit_event e s = give no_value (
      if ctx.emitter
      then record s { queue = record s.queue { events = s.queue.events ++ (e ∷ []) } }
      else s)

  -- `_fire_on_run_failed`; an exception of the hook is logged.
  unfoldable pub fire_on_run_failed : String → String → String → String → Call NoValue
  fire_on_run_failed pipeline run_id target error s = give no_value (
      if ctx.on_run_failed
      then record s { hook_calls = s.hook_calls ++ ((pipeline, run_id, target, error) ∷ []) }
      else s)

  abbrev pub duration_of : Option Run → Option Millis
  duration_of none = none
  duration_of (some r) = r.duration_ms

  -- `_run_duration_ms`, which is asked only if there is a sink
  unfoldable pub run_duration_ms : String → Call (Option Millis)
  run_duration_ms run_id =
      if ctx.emitter
      then attempt (transaction w at_read_run (get_run run_id)) (λ e. give none)
          (λ r. give (duration_of r))
      else give none

  unfoldable pub set_run : Site → String → RunRowStatus → Option String → Call NoValue
  set_run site run_id status error =
      transaction w site (update_run_status run_id status error (w.clock site))

  unfoldable pub finish_job : Site → String → Status → Option String → Call Bool
  finish_job site job_id status error = transaction w site (λ s.
      of_queue s (mark_finished job_id status error (some ctx.worker_id) (w.clock site) s.queue))

  -- The run of a failed job is marked if it was created.
  unfoldable pub fail_run : Option String → String → Call NoValue
  unfolding set_run
  fail_run none error = give no_value
  fail_run (some run_id) error = suppress (set_run at_fail_run run_id run_failed (some error))

  unfoldable pub report_failed : Option String → Job → String → Call NoValue
  unfolding run_duration_ms emit_event
  report_failed none j error = give no_value
  report_failed (some run_id) j error = run_duration_ms run_id >>= λ d.
      emit_event (run_has_failed run_id j.id j.pipeline d (some error))

  -- run_id or ""
  abbrev pub or_empty : Option String → String
  or_empty none = ""
  or_empty (some run_id) = run_id

  -- `_fail_job`
  unfoldable pub fail_job : Job → Option String → String → Call NoValue
  unfolding fail_run finish_job report_failed fire_on_run_failed
  fail_job j run_id error = fail_run run_id error >>= λ _.
      suppress (finish_job at_fail_job j.id failed (some error)) >>= λ _.
      report_failed run_id j error >>= λ _.
      fire_on_run_failed j.pipeline (or_empty run_id) j.target error

  -- `_finalize`
  unfoldable pub report_result : RunStatus → String → Job → Call NoValue
  unfolding run_duration_ms emit_event fire_on_run_failed
  report_result status run_id j =
      let error = error_of status in
      let failed_run : Call NoValue = run_duration_ms run_id >>= λ d.
      emit_event (run_has_failed run_id j.id j.pipeline d error) >>= λ _.
      fire_on_run_failed j.pipeline run_id j.target (or_empty error) in
      elim status [
        | run_succeeded ↦
            run_duration_ms run_id >>= λ d. emit_event (run_has_succeeded run_id j.id j.pipeline d)
        | status_failed ↦ failed_run
        | run_partial ↦ failed_run
      ]

  unfoldable pub finalize : Job → String → RunResult → Call NoValue
  unfolding set_run finish_job report_result
  finalize j run_id result =
      set_run at_finish_run run_id (run_status_by_result result.status) (error_of result.status)
      >>= λ _.
          finish_job at_finish_job j.id (job_status_by_result result.status)
            (error_of result.status)
          >>= λ _. report_result result.status run_id j

  abbrev pub stamp_if : String → ℕ → Bool → Call NoValue
  stamp_if job_id beats false = give no_value
  stamp_if job_id beats true =
      transaction w (at_stamp beats)
        (λ s. of_queue_only s (stamp_heartbeat job_id (w.clock (at_beat beats)) s.queue))

  -- One beat: `update_heartbeat`, whose read and write the others may come between.
  unfoldable pub one_beat : String → ℕ → Call NoValue
  one_beat job_id beats =
      transaction w (at_beat beats)
        (λ s. of_queue_read s (may_beat job_id (some ctx.worker_id) s.queue))
      >>= stamp_if job_id beats

  -- The loop of `_heartbeat_loop`: a beat that fails is logged and swallowed.
  unfoldable pub heartbeat_loop : String → ℕ → Call NoValue
  unfolding one_beat
  heartbeat_loop job_id zero = give no_value
  heartbeat_loop job_id (suc beats) =
      suppress (one_beat job_id beats) >>= λ _. heartbeat_loop job_id beats

  -- What `execute_pipeline` returns or raises, after the other processes went on meanwhile.
  unfoldable pub execute_job : Job → String → Call (Option RunResult)
  execute_job j run_id s = elim (ctx.execute j.pipeline j.target run_id) [
    | returned result ↦ give (some result) (w.others at_execute s)
    | raised message ↦ raise (execute_error message) (w.others at_execute s)
  ]

  -- The guarded transition, with the conflict caught.
  unfoldable pub start_job : Job → String → Call Attempt
  start_job j run_id =
      attempt
        (transaction w at_transition (λ s.
          of_queue s (
            transition_to_running j.id run_id (some ctx.worker_id) (w.clock at_transition)
              s.queue)))
        (λ e. if is_busy e then give busy else raise e)
        (λ moved. give (if moved then landed else claim_lost))

  -- What follows the transition: none where the body returns False.
  unfoldable pub after_start : Job → String → Attempt → Call (Option RunResult)
  unfolding set_run emit_event heartbeat_loop execute_job
  after_start j run_id busy =
      transaction w at_release (λ s. of_queue_only s (release_claim j.id s.queue)) >>= λ _.
      set_run at_cancel run_id run_cancelled (some "pipeline already running") >>= λ _. give none
  after_start j run_id claim_lost =
      set_run at_cancel run_id run_cancelled (some "claim lost (reclaimed by reaper)") >>= λ _.
      give none
  after_start j run_id landed = set_run at_running run_id run_running none >>= λ _.
      emit_event (run_has_started run_id j.id j.pipeline) >>= λ _.
      heartbeat_loop j.id ctx.beats >>= λ _. execute_job j run_id

  -- The body of the `try` after the run was created.
  unfoldable pub run_claimed : Job → String → Call (Option RunResult)
  unfolding start_job after_start
  run_claimed j run_id = start_job j run_id >>= after_start j run_id

  -- What follows the `try`: the Boolean is whether a job ran.
  unfoldable pub conclude : Job → String → Option RunResult → Call Bool
  unfolding finalize
  conclude j run_id none = give false
  conclude j run_id (some result) = finalize j run_id result >>= λ _. give true

  -- Any exception of the body marks the job and its run failed.
  unfoldable pub serve : Job → Call Bool
  unfolding fail_job run_claimed conclude
  serve j =
      attempt
        (transaction w at_create_run (
          create_run
            (new_run ctx.run_id (w.clock at_create_run) "pipeline" j.id none (some j.target) none)))
        (λ e. fail_job j none (ctx.text e) >>= λ _. give true)
        (λ run_id.
          attempt (run_claimed j run_id)
            (λ e. fail_job j (some run_id) (ctx.text e) >>= λ _. give true) (conclude j run_id))

  unfoldable pub serve_found : Option Job → Call Bool
  unfolding serve
  serve_found none = give false
  serve_found (some j) = serve j

  -- The tenant is 1, the default of `claim_next`.
  unfoldable pub run_once : Call Bool
  unfolding serve_found
  run_once =
      transaction w at_claim (λ s.
        of_queue s (claim_next ctx.locked ctx.worker_id ctx.label 1 (w.clock at_claim) s.queue))
      >>= serve_found

-- The loop of `worker_loop` over the worlds of its polls: one that raises is logged.
unfoldable pub poll : List (Context × World) → Call NoValue
unfolding run_once
poll [] = give no_value
poll ((ctx, w) ∷ polls) = suppress (run_once ctx w) >>= λ _. poll polls

-- The row is registered before the loop and stopped after it.
unfoldable pub worker_loop : Context → World → List (Context × World) → Call NoValue
unfolding poll
worker_loop ctx w polls =
    transaction w at_register
      (register_worker ctx.worker_id ctx.host ctx.pid ctx.label 1 (w.clock at_register))
    >>= λ _. poll polls >>= λ _.
        transaction w at_unregister (unregister_worker ctx.worker_id (w.clock at_unregister))
