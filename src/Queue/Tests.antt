-- ===== src/Queue/Tests.antt =====
-- Small tables of jobs, and what the queue's operations do to them.
use carve.Common.{
  ℕ, ◌+◌, ◌≤◌, String, Bool, true, false, Option, none, some, List, [], ◌∷◌, ◌++◌, ◌≡◌, ◌≢◌, refl,
  ap, ◌↔◌, ◌⊎◌, ◌==◌, string_eq, nat_eq, option_eq, if◌then◌else◌,
}
use carve.Queue.Table.{
  Status, queued, claimed, succeeded, Job, Queue, ok, err, integrity_error,
  pipeline_already_running, is_queued, is_running, occupied, index_holds, has_id, ids_differ, store,
  emit, get_job, update_where, any_row, job_claimed,
}
use carve.Queue.Rows.{WellFormed, WellFormed-of_store, in_index, count_if}
use carve.Queue.Claim.{claimable, before, first_by_order, take_claim, claim_next}
use carve.Queue.Claim.Oldest.{claim_next_oldest, MayClaim, IsFirst}
use carve.Queue.Claim.Once.{claims_differ}
use carve.Queue.Transitions.{
  start_run, claim_of, transition_to_running, mark_finished, drop_claim, release_claim,
  update_heartbeat,
}
use carve.Queue.Transitions.Guarded.{lost_claim_writes_nothing}
use carve.Queue.Transitions.Exact.{transition_exact, release_exact}
use carve.Queue.Reclaim.{stale, requeue, snapshot, reclaim_stale}
use carve.Queue.Reclaim.Sweep.{stale_in, reclaim_ok_iff, reclaim_disowns}
use carve.Queue.Enqueue.{Request, new_job, queued_event, enqueue_scheduled, find_queued}
use carve.Queue.Enqueue.Dedup.{scheduled, Coalesces, enqueue_manual-Coalesces}

-- A row of tenant 1 with its pipeline, status, owner and beat.
abbrev row : String → String → Status → Option String → Option ℕ → Job
row id pipeline status owner beat = record {
  id = id;
  pipeline = pipeline;
  target = "dev";
  status = status;
  trigger = "manual";
  required_label = none;
  scheduled_for = none;
  tenant_id = 1;
  run_id = none;
  claimed_by = owner;
  claimed_at = none;
  heartbeat_at = beat;
  started_at = none;
  finished_at = none;
  error_message = none;
  created_at = 0;
}

abbrev unlocked : String → Bool
unlocked id = false

abbrev on : List Job → Queue
on jobs = record { jobs = jobs; emitter = true; events = [] }

abbrev orders : Job
orders = row "o" "orders" queued none none

abbrev users : Job
users = row "u" "users" queued none none

abbrev held : Job
held = row "h" "events" claimed (some "w1") (some 10)

abbrev rows : List Job
rows = orders ∷ users ∷ held ∷ []

rows-WellFormed : WellFormed rows
unfolding store ids_differ has_id index_holds occupied string_eq nat_eq
rows-WellFormed = (WellFormed-of_store rows rows refl).1

abbrev after_first : Queue
after_first =
    emit (job_claimed "o" "w1")
      (record (on rows) { jobs = update_where (λ k. k.id == "o") (take_claim "w1" 50) rows })

abbrev after_second : Queue
after_second = emit (job_claimed "u" "w2") (record after_first {
  jobs = update_where (λ k. k.id == "u") (take_claim "w2" 60) after_first.jobs;
})

first_claim :
    claim_next unlocked "w1" none 1 50 (on rows)
    ≡ ok (some (take_claim "w1" 50 orders), after_first)
unfolding claim_next first_by_order before claimable store ids_differ has_id index_holds occupied
    update_where emit string_eq nat_eq
first_claim = refl

second_claim :
    claim_next unlocked "w2" none 1 60 after_first
    ≡ ok (some (take_claim "w2" 60 users), after_second)
unfolding claim_next first_by_order before claimable store ids_differ has_id index_holds occupied
    update_where emit string_eq nat_eq
second_claim = refl

claims_differ_example : orders.id ≢ users.id
claims_differ_example =
    claims_differ unlocked unlocked "w1" "w2" none none 1 1 50 60 (on rows) after_first after_second
      (take_claim "w1" 50 orders) (take_claim "w2" 60 users) rows-WellFormed first_claim
      second_claim

claim_next_oldest_example :
    ((any_row (claimable unlocked none 1 50) rows ≡ false)
      × (claim_next unlocked "w1" none 1 50 (on rows) ≡ ok (none, on rows)))
    ⊎ ((j : Job) × MayClaim unlocked none 1 50 j
        × IsFirst (claimable unlocked none 1 50) rows j
        × WellFormed (update_where (λ k. k.id == j.id) (take_claim "w1" 50) rows)
        × (claim_next unlocked "w1" none 1 50 (on rows)
            ≡ ok (
              some (take_claim "w1" 50 j),
              emit (job_claimed j.id "w1") (record (on rows) {
                jobs = update_where (λ k. k.id == j.id) (take_claim "w1" 50) rows;
              }),
            )))
claim_next_oldest_example = claim_next_oldest unlocked "w1" none 1 50 (on rows) rows-WellFormed

held-found : get_job "h" rows ≡ some held
unfolding get_job string_eq
held-found = refl

true-false : true ≡ false → ⊥
true-false e = cc

held-owner : held.claimed_by ≢ some "w2"
unfolding string_eq option_eq
held-owner e = true-false (ap (λ o. o == some "w1") e)

-- Others that append an event.
abbrev others : Queue → Queue
others q = emit (job_claimed "o" "w3") q

lost_claim_writes_nothing_example :
    (transition_to_running "h" "r1" (some "w2") 60 (on rows) ≡ ok (false, on rows))
    × (mark_finished "h" succeeded none (some "w2") 60 (on rows) ≡ ok (false, on rows))
    × (update_heartbeat others "h" 60 (some "w2") (on rows) ≡ ok (others (on rows)))
lost_claim_writes_nothing_example =
    lost_claim_writes_nothing "h" (on rows) held rows-WellFormed held-found "w2" "r1" succeeded none
      60 others held-owner

transition_exact_example : transition_to_running "h" "r1" (some "w1") 60 (on rows) ≡ (
    if claim_of "h" "w1" held
    then (if occupied is_running "events" 1 rows
        then err pipeline_already_running
        else ok (
          true,
          record (on rows) { jobs = update_where (claim_of "h" "w1") (start_run "r1" 60) rows },
        ))
    else ok (false, on rows))
transition_exact_example =
    transition_exact "h" (on rows) held rows-WellFormed held-found "w1" "r1" 60

-- The pipeline of the held job is queued again.
abbrev again : Job
again = row "g" "events" queued none none

abbrev crowded : List Job
crowded = rows ++ (again ∷ [])

crowded-WellFormed : WellFormed crowded
unfolding store ids_differ has_id index_holds occupied string_eq nat_eq
crowded-WellFormed = (WellFormed-of_store crowded crowded refl).1

held-found_crowded : get_job "h" crowded ≡ some held
unfolding get_job string_eq
held-found_crowded = refl

release_exact_example : release_claim "h" (on crowded) ≡ (
    if occupied is_queued "events" 1 crowded
    then err integrity_error
    else ok (record (on crowded) { jobs = update_where (λ k. k.id == "h") drop_claim crowded }))
release_exact_example =
    release_exact "h" (on crowded) held crowded-WellFormed held-found_crowded refl

release_fails : release_claim "h" (on crowded) ≡ err integrity_error
unfolding release_claim get_job store ids_differ has_id index_holds occupied update_where string_eq
    nat_eq
release_fails = refl

reclaim_ok_iff_example :
    ((found : List (String × Option String × Option String)) × (q' : Queue) × (reclaim_stale
          unlocked 1 100 50
          (on crowded)
        ≡ ok (found, q')))
    ↔ ((p : String) (t : ℕ)
        → count_if (in_index is_queued p t) crowded
            + count_if (stale_in unlocked 1 100 50 (on crowded) p t) crowded
          ≤ 1)
reclaim_ok_iff_example = reclaim_ok_iff unlocked 1 100 50 (on crowded) crowded-WellFormed

sweep_fails : reclaim_stale unlocked 1 100 50 (on crowded) ≡ err integrity_error
unfolding reclaim_stale stale snapshot store ids_differ has_id index_holds occupied update_where
    string_eq nat_eq
sweep_fails = refl

abbrev after_sweep : Queue
after_sweep = record (on rows) { jobs = orders ∷ users ∷ requeue held ∷ [] }

abbrev found_stale : List (String × Option String × Option String)
found_stale = ("h", none, some "w1") ∷ []

sweep_works : reclaim_stale unlocked 1 100 50 (on rows) ≡ ok (found_stale, after_sweep)
unfolding reclaim_stale stale snapshot store ids_differ has_id index_holds occupied update_where
    string_eq nat_eq
sweep_works = refl

held-stale : stale unlocked 1 100 50 held ≡ true
unfolding stale nat_eq
held-stale = refl

reclaim_disowns_example :
    (get_job "h" after_sweep.jobs ≡ some (requeue held))
    × (transition_to_running "h" "r1" (some "w1") 120 after_sweep ≡ ok (false, after_sweep))
    × (mark_finished "h" succeeded none (some "w1") 120 after_sweep ≡ ok (false, after_sweep))
    × (update_heartbeat others "h" 120 (some "w1") after_sweep ≡ ok (others after_sweep))
reclaim_disowns_example =
    reclaim_disowns unlocked 1 100 50 (on rows) found_stale after_sweep "h" held "w1" "r1" succeeded
      none 120 others sweep_works held-found held-stale

abbrev request : String → Request
request pipeline = record {
  pipeline = pipeline;
  target = "prod";
  trigger = "api";
  scheduled_for = some 40;
  required_label = none;
  tenant_id = 1;
}

new_id : has_id "n" rows ≡ false
unfolding has_id string_eq
new_id = refl

abbrev enqueued : Job
enqueued = new_job "n" 70 (scheduled (request "events"))

abbrev after_enqueue : Queue
after_enqueue = queued_event enqueued (record (on rows) { jobs = rows ++ (enqueued ∷ []) })

enqueue_works : enqueue_scheduled "n" 70 (request "events") (on rows) ≡ ok (enqueued, after_enqueue)
unfolding enqueue_scheduled store ids_differ has_id index_holds occupied emit string_eq nat_eq
enqueue_works = refl

enqueue_manual-Coalesces_example :
    Coalesces "n" 70 (request "orders") (on rows) (find_queued "orders" 1 rows)
enqueue_manual-Coalesces_example =
    enqueue_manual-Coalesces "n" 70 (request "orders") (on rows) rows-WellFormed new_id
