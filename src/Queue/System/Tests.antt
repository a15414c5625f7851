-- ===== src/Queue/System/Tests.antt =====
-- A history of a table with a lost worker.
use carve.Common.{
  ℕ, String, Bool, false, true, Option, none, some, List, [], ◌∷◌, ◌≡◌, ◌≢◌, refl, string_eq,
  nat_eq, option_eq, ap, ◌==◌, ◌⊎◌,
}
use carve.Queue.Table.{
  Status, running, succeeded, Job, Queue, ok, store, ids_differ, has_id, index_holds, occupied,
  emit, get_job, update_where, any_row,
}
use carve.Queue.Rows.{WellFormed, WellFormed-of_store}
use carve.Queue.Claim.{claim_next, claimable, before, first_by_order, take_claim}
use carve.Queue.Transitions.{
  transition_to_running, start_run, serialized, release_claim, drop_claim,
}
use carve.Queue.Reclaim.{reclaim_stale, requeue, stale, snapshot}
use carve.Queue.Life.{over}
use carve.Queue.Life.View.{view}
use carve.Queue.System.{Step, releases, reaps, claims, starts, Reach, here, later}
use carve.Queue.System.Lives.{Kept, Step-Kept}
use carve.Queue.System.Safety.{Reopened, Reach-over, WaitedBetween, handover_waits}

abbrev row : String → String → Status → Option String → Option ℕ → Job
row id pipeline status owner beat = record {
  id = id;
  pipeline = pipeline;
  target = "dev";
  status = status;
  trigger = "manual";
  required_label = none;
  scheduled_for = none;
  tenant_id = 1;
  run_id = none;
  claimed_by = owner;
  claimed_at = none;
  heartbeat_at = beat;
  started_at = none;
  finished_at = none;
  error_message = none;
  created_at = 0;
}

abbrev stuck : Job
stuck = row "h" "events" running (some "w1") (some 10)

abbrev ended : Job
ended = row "f" "orders" succeeded (some "w1") (some 5)

abbrev table : List Job → Queue
table jobs = record { jobs = jobs; emitter = false; events = [] }

abbrev at_first : Queue
at_first = table (stuck ∷ ended ∷ [])

abbrev reaped : Queue
reaped = table (requeue stuck ∷ ended ∷ [])

abbrev retaken : Queue
retaken = table (take_claim "w2" 110 (requeue stuck) ∷ ended ∷ [])

abbrev restarted : Queue
restarted = table (start_run "r2" 120 (take_claim "w2" 110 (requeue stuck)) ∷ ended ∷ [])

abbrev unlocked : String → Bool
unlocked id = false

table-WellFormed : WellFormed at_first.jobs
unfolding store ids_differ has_id index_holds occupied string_eq nat_eq
table-WellFormed = (WellFormed-of_store at_first.jobs at_first.jobs refl).1

reap_step : Step at_first reaped
unfolding reclaim_stale stale snapshot store ids_differ has_id index_holds occupied update_where
    string_eq nat_eq
reap_step = reaps unlocked 1 100 50 (("h", none, some "w1") ∷ []) refl

claim_step : Step reaped retaken
unfolding claim_next first_by_order before claimable store ids_differ has_id index_holds occupied
    update_where emit string_eq nat_eq
claim_step = claims unlocked "w2" none 1 110 (take_claim "w2" 110 (requeue stuck)) refl

start_step : Step retaken restarted
unfolding transition_to_running serialized store ids_differ has_id index_holds occupied update_where
    any_row string_eq nat_eq option_eq
start_step = starts "h" "r2" "w2" 120 true refl

history : Reach at_first restarted
history = later (later (later here reap_step) claim_step) start_step

Step-Kept_example : Kept at_first reaped
Step-Kept_example = Step-Kept at_first reaped table-WellFormed reap_step

Reach-over_example :
    WellFormed restarted.jobs
    × ((view restarted.jobs "f" ≡ over succeeded) ⊎ Reopened at_first "f" succeeded restarted)
unfolding get_job string_eq
Reach-over_example = Reach-over at_first restarted "f" succeeded table-WellFormed history refl

other_owner : ◌≢◌ {A = Option String} (some "w2") (some "w1")
unfolding string_eq option_eq
other_owner e = true-false (ap (λ o. o == some "w2") e)
  where
    true-false : true ≡ false → ⊥
    true-false p = cc

handover_waits_example : WaitedBetween at_first "h" restarted
unfolding get_job string_eq
handover_waits_example =
    handover_waits at_first "h" (some "w1") table-WellFormed refl restarted (some "w2") history
      other_owner refl

-- `release_claim` asks for no owner: it queues even a job that is over again.
over_released : release_claim "f" at_first ≡ ok (table (stuck ∷ drop_claim ended ∷ []))
unfolding release_claim get_job store ids_differ has_id index_holds occupied update_where string_eq
    nat_eq
over_released = refl

over_queued : Step at_first (table (stuck ∷ drop_claim ended ∷ []))
over_queued = releases "f" over_released
