-- ===== src/Queue/Table.antt =====
-- The `jobs` table of src/carve/core/state/models.py, its unique indexes, the events that the queue
-- emits, and the results of a transaction.
pub use carve.Common.Result.{ok, err, ◌>>=◌}
use carve.Common.Result.{Fallible}
use carve.Common.Dict.{Dict}
use Prim.Native.Nat.{◌/◌}
use carve.Common.{
  ℕ, ◌-◌, leb, String, Bool, true, false, Option, none, some, List, [], ◌∷◌, ◌++◌, ◌||◌, ◌&&◌, not,
  ◌==◌, string_eq, nat_eq, if◌then◌else◌,
}

pub data Status : Type 0 where
  queued claimed running succeeded failed cancelled timed_out : Status

abbrev pub is_queued : Status → Bool
is_queued queued = true
is_queued _ = false

abbrev pub is_claimed : Status → Bool
is_claimed claimed = true
is_claimed _ = false

abbrev pub is_running : Status → Bool
is_running running = true
is_running _ = false

-- status IN ('claimed', 'running')
abbrev pub is_held : Status → Bool
is_held s = is_claimed s || is_running s

-- Times are instants on one clock, in microseconds.
pub record Job : Type 0 where
  pub id : String
  pub pipeline : String
  pub target : String
  pub status : Status
  pub trigger : String
  pub required_label : Option String
  pub scheduled_for : Option ℕ
  pub tenant_id : ℕ
  pub run_id : Option String
  pub claimed_by : Option String
  pub claimed_at : Option ℕ
  pub heartbeat_at : Option ℕ
  pub started_at : Option ℕ
  pub finished_at : Option ℕ
  pub error_message : Option String
  pub created_at : ℕ

-- The key of both partial unique indexes.
abbrev pub in_slot : String → ℕ → Job → Bool
in_slot pipeline tenant_id j = j.pipeline == pipeline && j.tenant_id == tenant_id

-- A row with a status of the index in the given slot.
unfoldable pub occupied : (Status → Bool) → String → ℕ → List Job → Bool
occupied at pipeline tenant_id [] = false
occupied at pipeline tenant_id (j ∷ jobs) =
    (at j.status && in_slot pipeline tenant_id j) || occupied at pipeline tenant_id jobs

-- ix_jobs_one_queued_per_pipeline at `is_queued`, ix_jobs_one_running_per_pipeline at `is_running`.
unfoldable pub index_holds : (Status → Bool) → List Job → Bool
unfolding occupied
index_holds at [] = true
index_holds at (j ∷ jobs) =
    not (at j.status && occupied at j.pipeline j.tenant_id jobs) && index_holds at jobs

unfoldable pub has_id : String → List Job → Bool
has_id id [] = false
has_id id (j ∷ jobs) = j.id == id || has_id id jobs

unfoldable pub ids_differ : List Job → Bool
unfolding has_id
ids_differ [] = true
ids_differ (j ∷ jobs) = not (has_id j.id jobs) && ids_differ jobs

pub data QueueError : Type 0 where
  queued_job_already_exists pipeline_already_running integrity_error key_error : QueueError

abbrev pub Result {ℓ} : Type ℓ → Type ℓ
Result A = Fallible QueueError A

-- What the database checks of the rows that a statement would leave.
unfoldable pub store : List Job → Result (List Job)
store jobs =
    if ids_differ jobs && (index_holds is_queued jobs && index_holds is_running jobs)
    then ok jobs
    else err integrity_error

-- A duration in milliseconds, negative when the clock was set back.
pub data Millis : Type 0 where
  ms minus_ms : ℕ → Millis

-- int(delta.total_seconds() * 1000) between two instants in microseconds, rounded towards 0
unfoldable pub elapsed : ℕ → ℕ → Millis
elapsed started now =
    if leb started now then ms ((now - started) / 1000) else minus_ms ((started - now) / 1000)

pub data Event : Type 0 where
  job_queued : String → String → String → String → Option ℕ → Event
  job_claimed : String → String → Event
  job_reclaimed : String → Option String → Option String → Event
  schedule_fired : String → String → ℕ → Event
  schedule_skipped : String → ℕ → Event
  worker_registered worker_unregistered : String → String → ℕ → Event
  step_has_started : String → String → String → Event
  step_has_failed : String → String → String → Option String → Event
  step_has_completed : String → String → String → Dict String → Event
  run_has_started : String → String → String → Event
  run_has_succeeded : String → String → String → Option Millis → Event
  run_has_failed : String → String → String → Option Millis → Option String → Event

-- `emitter` tells whether an event sink was injected; what it records is in `events`.
pub record Queue : Type 0 where
  pub jobs : List Job
  pub emitter : Bool
  pub events : List Event

-- `_emit`; a sink that fails swallows its error, and one that works appends a row.
unfoldable pub emit : Event → Queue → Queue
emit e q = if q.emitter then record q { events = q.events ++ (e ∷ []) } else q

-- session.get(Job, id)
unfoldable pub get_job : String → List Job → Option Job
get_job id [] = none
get_job id (j ∷ jobs) = if j.id == id then some j else get_job id jobs

-- UPDATE jobs SET f WHERE test
unfoldable pub update_where : (Job → Bool) → (Job → Job) → List Job → List Job
update_where test f [] = []
update_where test f (j ∷ jobs) = (if test j then f j else j) ∷ update_where test f jobs

-- Whether the WHERE clause matches a row.
unfoldable pub any_row : (Job → Bool) → List Job → Bool
any_row test [] = false
any_row test (j ∷ jobs) = test j || any_row test jobs
