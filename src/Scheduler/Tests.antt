-- ===== src/Scheduler/Tests.antt =====
-- Two schedules, one of them with a job that is queued already, and a pass over them.
use carve.Common.{
  ◌++◌, ℕ, ◌+◌, ◌-◌, ◌<◌, String, true, false, none, some, List, [], ◌∷◌, ◌&&◌, not, leb, ◌≡◌, refl,
  if◌then◌else◌, string_eq, nat_eq, ◌==◌, arith, option_eq,
}
use carve.Queue.Table.{
  Queue, Job, queued, job_queued, schedule_fired, schedule_skipped, store, ids_differ, has_id,
  index_holds, occupied,
}
use carve.Queue.Enqueue.{new_job, enqueue_scheduled}
use carve.Scheduler.Cron.{Croniter, NextIsLater, next_tick_after, this_tick_at}
use carve.Scheduler.Table.{
  Schedule, is_due, insert_due, list_due, get_schedule, put_schedule, anchor, advanced, written,
  set_last_fired,
}
use carve.Scheduler.Table.Advance.{set_last_fired-advances}
use carve.Scheduler.Live.{
  Live, Origin, LiveRequest, ScheduleChange, snapshot_row, paused, schedule_paused, pause,
  pause_origin, get_locked,
}
use carve.Scheduler.Live.Audit.{Audited, pausing, run_change-Audited}
use carve.Scheduler.Live.Pause.{Resumable, pause-resume}
use carve.Scheduler.Fire.{
  Runtime, ResolveLabel, request_of, finished, emit, advance, settle, fire, count_fired, fire_all,
  run_due_once,
}
use carve.Scheduler.Fire.Turns.{size, all_served}
use carve.Scheduler.Fire.Queues.{run_due_once-queues}

-- A tick at every instant.
abbrev every : Croniter
every = record {
  is_zone = λ zone. zone == "UTC";
  is_valid = λ cron. cron == "* * * * *";
  get_next = λ cron zone after. some (after + 1);
  get_prev = λ cron zone before. some (before - 1);
}

every-later : NextIsLater every
every-later cron zone after tick e = ground arith

abbrev schedule : String → String → ℕ → Schedule
schedule id pipeline next = record {
  id = id;
  pipeline = pipeline;
  cron = "* * * * *";
  target = "prod";
  timezone = "UTC";
  tenant_id = 1;
  paused = false;
  paused_by = none;
  pause_reason = none;
  next_fires_at = some next;
  last_fired_at = none;
  created_at = 0;
  updated_at = 0;
}

abbrev schedules : List Schedule
schedules = schedule "s1" "orders" 20 ∷ schedule "s2" "users" 10 ∷ []

abbrev advanced_once : List Schedule
advanced_once = advanced 30 21 (schedule "s1" "orders" 20) ∷ schedule "s2" "users" 10 ∷ []

first-found : get_schedule "s1" schedules ≡ some (schedule "s1" "orders" 20)
unfolding get_schedule string_eq
first-found = refl

first-written : set_last_fired every "s1" 30 schedules ≡ written advanced_once
unfolding set_last_fired get_schedule put_schedule next_tick_after string_eq
first-written = refl

set_last_fired-advances_example :
    (tick : ℕ) × (next_tick_after every "* * * * *" (anchor 30 (some 20)) "UTC" ≡ some tick)
    × (anchor 30 (some 20) < tick)
    × (get_schedule "s1" advanced_once ≡ some (advanced 30 tick (schedule "s1" "orders" 20)))
    × (is_due 1 30 (advanced 30 tick (schedule "s1" "orders" 20)) ≡ (not false && leb tick 30))
set_last_fired-advances_example =
    set_last_fired-advances every "s1" 30 schedules advanced_once (schedule "s1" "orders" 20)
      every-later first-found first-written

abbrev any_label : ResolveLabel
any_label pipeline = some none

-- The pipeline `users` is queued already.
abbrev users_job : Job
users_job = new_job "j0" 5 (request_of (schedule "s2" "users" 10) 5 none 1)

abbrev runtime : Runtime
runtime = record {
  schedules = schedules;
  queue = record { jobs = users_job ∷ []; emitter = false; events = [] };
  emitter = true;
  events = [];
}

abbrev after_pass : Runtime
after_pass = record {
  schedules =
      advanced 30 21 (schedule "s1" "orders" 20) ∷ advanced 30 11 (schedule "s2" "users" 10) ∷ [];
  queue = record {
    jobs = users_job ∷ new_job "job_s1" 30 (request_of (schedule "s1" "orders" 20) 30 none 1) ∷ [];
    emitter = false;
    events = [];
  };
  emitter = true;
  events = schedule_skipped "users" 30 ∷ schedule_fired "orders" "job_s1" 30 ∷ [];
}

abbrev job_id_of : String → String
job_id_of id = if id == "s1" then "job_s1" else "job_s2"

pass-runs : run_due_once every any_label 1 30 job_id_of runtime ≡ (after_pass, finished 1)
unfolding run_due_once fire_all fire settle advance emit count_fired list_due insert_due is_due
    this_tick_at set_last_fired get_schedule put_schedule next_tick_after enqueue_scheduled
    carve.Queue.Table.emit store ids_differ has_id index_holds occupied string_eq nat_eq
pass-runs = refl

run_due_once-queues_example :
    (new : List Job) × (after_pass.queue.jobs ≡ runtime.queue.jobs ++ new)
    × (size new ≡ 1)
    × (all_served any_label 1 after_pass.queue.jobs (list_due 1 30 schedules) ≡ true)
run_due_once-queues_example =
    run_due_once-queues every any_label 1 30 job_id_of runtime after_pass 1 pass-runs

abbrev live : Live
live = record { schedules = schedules; changes = []; emitter = true; events = [] }

abbrev by_user : Origin
by_user = record { source = "cli"; reason = some "holiday"; actor_token_id = none }

abbrev of_orders : ℕ → LiveRequest
of_orders now = record { pipeline = "orders"; tenant_id = 1; origin = by_user; now = now }

abbrev orders_paused : Schedule
orders_paused = record (schedule "s1" "orders" 20) {
  paused = true;
  paused_by = some "user";
  pause_reason = some "holiday";
  updated_at = 30;
}

abbrev orders_change : ScheduleChange
orders_change = record {
  pipeline = "orders";
  change_kind = paused;
  before = some (snapshot_row (schedule "s1" "orders" 20));
  after = snapshot_row orders_paused;
  origin = by_user;
  tenant_id = 1;
  changed_at = 30;
}

abbrev paused_live : Live
paused_live = record {
  schedules = orders_paused ∷ schedule "s2" "users" 10 ∷ [];
  changes = orders_change ∷ [];
  emitter = true;
  events = schedule_paused "orders" by_user ∷ [];
}

run_change-Audited_example : Audited (of_orders 30) live orders_paused paused_live
unfolding pause string_eq nat_eq option_eq
run_change-Audited_example =
    run_change-Audited every pausing (of_orders 30) live paused_live orders_paused refl

pause-resume_example : Resumable "orders" 1 by_user by_user 30 40 (schedule "s1" "orders" 20) live
unfolding get_locked pause_origin string_eq nat_eq option_eq
pause-resume_example =
    pause-resume "orders" 1 by_user by_user 30 40 (schedule "s1" "orders" 20) live refl refl refl
