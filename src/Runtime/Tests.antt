-- ===== src/Runtime/Tests.antt =====
-- A worker whose job is ended by others while it runs, a pass of the reaper, and a recorded attempt.
use carve.Common.{
  ℕ, String, Bool, false, true, Option, none, some, List, [], ◌∷◌, ◌++◌, ◌≡◌, refl, string_eq,
  nat_eq, option_eq, arith, if◌then◌else◌, contains, Bool-cases, inl, inr,
}
use carve.Pipeline.Step.{PipelineStep, exponential, fail, succeeded as step_succeeded}
use carve.Pipeline.Execute.{raised, returned}
use carve.Pipeline.FailureModes.{run_succeeded}
use carve.Queue.Table.{
  Status, queued, running, cancelled, Job, ok, ◌>>=◌, ms, elapsed, store, ids_differ, has_id,
  index_holds, occupied, emit, get_job, update_where, any_row, is_held,
}
use carve.Queue.Rows.{WellFormed, WellFormed-of_store, update_where-WellFormed}
use carve.Queue.Claim.{claim_next, claimable, before, first_by_order}
use carve.Queue.Transitions.{
  transition_to_running, serialized, mark_finished, hold_of, may_beat, stamp_heartbeat,
}
use carve.Queue.Reclaim.{reclaim_stale, stale, snapshot}
use carve.Runtime.Store.{
  run_failed, Store, Run, new_run, find_row, change_row, add_row, write_row, run_key, create_run,
  update_run_status, change_status, get_run, of_queue, of_queue_only, of_queue_read,
}
use carve.Runtime.Call.{
  ◌>>=◌ as ◌>>>=◌, Site, at_execute, at_finish_run, Reply, replied, threw, World, committed,
  transaction, attempt, suppress,
}
use carve.Runtime.Worker.{
  Context, emit_event, fire_on_run_failed, run_duration_ms, set_run, finish_job, fail_run,
  report_failed, fail_job, one_beat, heartbeat_loop, execute_job, start_job, after_start,
  run_claimed, conclude, finalize, serve, serve_found, run_once,
}
use carve.Runtime.Worker.Claims.{Fair, Idle, none_made, run_of}
use carve.Runtime.Worker.Resolves.{run_once-resolves}
use carve.Runtime.Sink.{Sink, Ending, step_started, step_finished}
use carve.Runtime.Sink.Attempts.{finished_row, started-finished}
use carve.Runtime.Reaper.{fail_orphan, emit_reclaimed, fail_orphans, job_ids, reap_stale_once}
use carve.Runtime.Reaper.Orphans.{HasFailed, reap-fails_orphans}

abbrev row : String → String → Status → Option String → Option ℕ → Option String → Job
row id pipeline status owner beat run = record {
  id = id;
  pipeline = pipeline;
  target = "dev";
  status = status;
  trigger = "manual";
  required_label = none;
  scheduled_for = none;
  tenant_id = 1;
  run_id = run;
  claimed_by = owner;
  claimed_at = none;
  heartbeat_at = beat;
  started_at = none;
  finished_at = none;
  error_message = none;
  created_at = 0;
}

abbrev with_jobs : List Job → List Run → Store
with_jobs jobs runs = record {
  queue = record { jobs = jobs; emitter = true; events = [] };
  runs = runs;
  workers = [];
  step_runs = [];
  hook_calls = [];
}

abbrev waiting_store : Store
waiting_store = with_jobs (row "o" "orders" queued none none none ∷ []) []

-- While the pipeline executes, the other processes end every held job.
abbrev end_held : Job → Job
end_held j = record j { status = cancelled }

abbrev all_ended : Store → Store
all_ended s = record s {
  queue = record s.queue { jobs = update_where (λ k. is_held k.status) end_held s.queue.jobs };
}

abbrev is_execute : Site → Bool
is_execute at_execute = true
is_execute _ = false

abbrev is_finish_run : Site → Bool
is_finish_run at_finish_run = true
is_finish_run _ = false

abbrev world : World
world = record {
  others = λ site s. if is_execute site then all_ended s else s;
  down = λ site. false;
  clock = λ site. 50;
}

abbrev worker : Context
worker = record {
  worker_id = "w1";
  host = "here";
  pid = 1;
  label = none;
  emitter = true;
  on_run_failed = true;
  run_id = "r1";
  execute = λ pipeline target run_id. raised "no such table";
  beats = 1;
  locked = λ id. false;
  text = λ e. "no such table";
}

ended-WellFormed :
    (jobs : List Job)
    → WellFormed jobs
    → WellFormed (update_where (λ k. is_held k.status) end_held jobs)
ended-WellFormed jobs w =
    update_where-WellFormed (λ k. is_held k.status) end_held jobs w (λ k. refl)
      (λ p t k _. ground arith) (λ p t k _. ground arith)

world-Fair : Fair "w1" world
world-Fair = record {
  keeps = λ site s w. elim (Bool-cases (is_execute site)) [
    | inl y ↦ rw y (ended-WellFormed s.queue.jobs w)
    | inr n ↦ rw n w
  ];
  grants_none = λ site s id h. elim (Bool-cases (is_execute site)) [
    | inl y ↦ rw y (
        none_made (λ k. is_held k.status) end_held (hold_of id "w1") s.queue.jobs
          (λ k t. ground arith) h)
    | inr n ↦ rw n h
  ];
  starts_none = λ site s id h. elim (Bool-cases (is_execute site)) [
    | inl y ↦ rw y (
        none_made (λ k. is_held k.status) end_held (run_of id "w1") s.queue.jobs
          (λ k t. ground arith) h)
    | inr n ↦ rw n h
  ];
}

waiting-Idle : Idle "w1" waiting_store
unfolding store ids_differ has_id index_holds occupied string_eq nat_eq any_row option_eq
waiting-Idle = record {
  formed = (WellFormed-of_store waiting_store.queue.jobs waiting_store.queue.jobs refl).1;
  none_held = λ id. ground arith;
}

abbrev store_of : Reply Bool → Store
store_of (replied b s) = s
store_of (threw e s) = s

abbrev left_store : Store
left_store = store_of (run_once worker world waiting_store)

ran : run_once worker world waiting_store ≡ replied true left_store
unfolding run_once serve_found serve conclude run_claimed after_start start_job execute_job
    heartbeat_loop one_beat of_queue_read fail_job report_failed fail_run finish_job set_run
    run_duration_ms fire_on_run_failed emit_event transaction committed attempt suppress of_queue
    of_queue_only create_run update_run_status change_status get_run find_row change_row add_row
    write_row claim_next first_by_order before claimable transition_to_running serialized
    mark_finished may_beat stamp_heartbeat store ids_differ has_id index_holds occupied update_where
    any_row emit get_job string_eq nat_eq option_eq ◌>>>=◌
ran = refl

run_once-resolves_example :
    WellFormed left_store.queue.jobs × (any_row (hold_of "o" "w1") left_store.queue.jobs ≡ false)
run_once-resolves_example =
    run_once-resolves worker world world-Fair refl waiting_store left_store true "o" waiting-Idle
      ran

-- The failed run of the lost job is marked, although its job was ended by others.
left_run :
    find_row run_key "r1" left_store.runs
    ≡ some (record (new_run "r1" 50 "pipeline" "o" none (some "dev") none) {
      status = run_failed;
      error_message = some "no such table";
      started_at = some 50;
      completed_at = some 50;
      duration_ms = some (ms 0);
    })
unfolding run_once serve_found serve conclude run_claimed after_start start_job execute_job
    heartbeat_loop one_beat of_queue_read fail_job report_failed fail_run finish_job set_run
    run_duration_ms fire_on_run_failed emit_event transaction committed attempt suppress of_queue
    of_queue_only create_run update_run_status change_status elapsed get_run find_row change_row
    add_row write_row claim_next first_by_order before claimable transition_to_running serialized
    mark_finished may_beat stamp_heartbeat store ids_differ has_id index_holds occupied update_where
    any_row emit get_job string_eq nat_eq option_eq ◌>>>=◌
left_run = refl

abbrev quiet_world : World
quiet_world = record { others = λ site s. s; down = λ site. false; clock = λ site. 200 }

abbrev stuck : Job
stuck = row "h" "events" running (some "w1") (some 10) (some "r1")

abbrev run : Run
run = new_run "r1" 5 "pipeline" "h" none (some "dev") none

abbrev stuck_store : Store
stuck_store = with_jobs (stuck ∷ []) (run ∷ [])

abbrev unlocked : String → Bool
unlocked id = false

abbrev ids_of_reply : Reply (List String) → List String
ids_of_reply (replied ids s) = ids
ids_of_reply (threw e s) = []

abbrev store_of_pass : Reply (List String) → Store
store_of_pass (replied ids s) = s
store_of_pass (threw e s) = s

abbrev reaped_store : Store
reaped_store = store_of_pass (reap_stale_once quiet_world unlocked 1 100 50 stuck_store)

reaped : reap_stale_once quiet_world unlocked 1 100 50 stuck_store ≡ replied ("h" ∷ []) reaped_store
unfolding reap_stale_once fail_orphans fail_orphan emit_reclaimed job_ids transaction committed
    attempt ◌>>>=◌ of_queue update_run_status change_status write_row find_row change_row
    reclaim_stale stale snapshot store ids_differ has_id index_holds occupied update_where emit
    string_eq nat_eq
reaped = refl

stuck-stale : stale unlocked 1 100 50 stuck ≡ true
unfolding stale nat_eq
stuck-stale = refl

reap-fails_orphans_example :
    (contains {A = String} ("h" ∷ []) "h" ≡ true) × HasFailed "r1" reaped_store
unfolding find_row string_eq
reap-fails_orphans_example =
    reap-fails_orphans quiet_world (λ site s. refl) unlocked 1 100 50 stuck_store "r1" ("h" ∷ [])
      reaped_store stuck reaped (inl refl) stuck-stale refl (run, refl)

abbrev step : PipelineStep
step = record {
  id = "load";
  type = "sql";
  depends_on = [];
  failure_mode = record {
    mode = fail;
    max_attempts = 1;
    backoff = exponential;
    initial_delay = 5;
    max_delay = 60;
  };
  jinja_vars = [];
}

abbrev ending : Ending
ending = record {
  status = step_succeeded;
  outputs = ("rows", "7") ∷ [];
  error_message = none;
  finished_at = none;
  duration_ms = some 3;
}

abbrev sink : Sink
sink = record { run_id = "r1"; open_rows = [] }

started-finished_example :
    (s' : Store) × ((step_started "x" 10 step 1 sink stuck_store >>= λ r.
    step_finished "y" 20 step ending 1 r.0 r.1)
      ≡ ok (sink, s'))
    × (s'.step_runs
        ≡ stuck_store.step_runs ++ (finished_row "x" "y" 10 20 1 step ending sink stuck_store ∷ []))
    × (s'.queue.jobs ≡ stuck_store.queue.jobs)
unfolding find_row
started-finished_example = started-finished "x" "y" 10 20 1 step ending sink stuck_store refl refl

-- The write of the run's status fails in `_finalize`: the exception leaves `run_once`, and the job is
-- still held.
abbrev failing_world : World
failing_world = record {
  others = λ site s. s;
  down = λ site. is_finish_run site;
  clock = λ site. 50;
}

abbrev done_worker : Context
done_worker = record worker {
  execute = λ pipeline target run_id. returned (record {
    status = run_succeeded;
    completed = [];
    failed_steps = [];
    skipped_steps = [];
    result_outputs = [];
    result_warnings = [];
  });
}

abbrev status_of : String → Reply Bool → Option Status
status_of id (replied b s) = none
status_of id (threw e s) = elim (get_job id s.queue.jobs) [ none ↦ none | some j ↦ some j.status ]

finalize_raises : status_of "o" (run_once done_worker failing_world waiting_store) ≡ some running
unfolding run_once serve_found serve conclude run_claimed after_start start_job execute_job finalize
    heartbeat_loop one_beat of_queue_read set_run emit_event transaction committed attempt suppress
    of_queue of_queue_only create_run update_run_status change_status find_row change_row add_row
    write_row claim_next first_by_order before claimable transition_to_running serialized may_beat
    stamp_heartbeat store ids_differ has_id index_holds occupied update_where any_row emit get_job
    string_eq nat_eq option_eq ◌>>>=◌
finalize_raises = refl
