-- ===== src/Scheduler/Live.antt =====
-- The changes of schedules by hand and by the reconciler: `seed`, `pause`, `resume` and `set_cron` of
-- src/carve/core/state/schedules.py, with the `schedule_changes` trail. A method is one transaction;
-- `uuid` and the clock are parameters.
pub mod Audit
pub mod Pause
use carve.Common.{
  ℕ, String, Bool, true, false, Option, none, some, List, [], ◌∷◌, ◌++◌, ◌&&◌, ◌||◌, not, ◌==◌,
  contains, string_eq, nat_eq, option_eq, if◌then◌else◌, is_some,
}
use carve.Common.Result.{Fallible, ok, err}
use carve.Scheduler.Cron.{Croniter, next_tick_after}
use carve.Scheduler.Table.{Schedule, get_schedule}

-- The fields of `_SNAPSHOT_FIELDS`.
pub record Snapshot : Type 0 where
  pub cron : String
  pub target : String
  pub timezone : String
  pub paused : Bool
  pub paused_by : Option String
  pub pause_reason : Option String
  pub next_fires_at : Option ℕ

abbrev pub snapshot_row : Schedule → Snapshot
snapshot_row s = record {
  cron = s.cron;
  target = s.target;
  timezone = s.timezone;
  paused = s.paused;
  paused_by = s.paused_by;
  pause_reason = s.pause_reason;
  next_fires_at = s.next_fires_at;
}

pub data ChangeKind : Type 0 where
  paused resumed cron_set reseeded : ChangeKind

-- Who asked for a change, by what surface, and why.
pub record Origin : Type 0 where
  pub source : String
  pub reason : Option String
  pub actor_token_id : Option String

pub record ScheduleChange : Type 0 where
  pub pipeline : String
  pub change_kind : ChangeKind
  pub before : Option Snapshot
  pub after : Snapshot
  pub origin : Origin
  pub tenant_id : ℕ
  pub changed_at : ℕ

pub data LiveEvent : Type 0 where
  schedule_paused schedule_resumed : String → Origin → LiveEvent
  schedule_changed : String → Option (String × String) → String × String → Origin → LiveEvent
  schedule_seeded : String → String → LiveEvent

pub record Live : Type 0 where
  pub schedules : List Schedule
  pub changes : List ScheduleChange
  pub emitter : Bool
  pub events : List LiveEvent

pub data LiveError : Type 0 where
  schedule_not_found cron_error check_violation integrity_error : LiveError

abbrev pub has_key : String → ℕ → Schedule → Bool
has_key pipeline tenant_id s = s.pipeline == pipeline && s.tenant_id == tenant_id

-- `_get_locked`
unfoldable pub get_locked : String → ℕ → List Schedule → Option Schedule
get_locked pipeline tenant_id [] = none
get_locked pipeline tenant_id (s ∷ schedules) =
    if has_key pipeline tenant_id s then some s else get_locked pipeline tenant_id schedules

-- The locked row is written back.
unfoldable pub put_locked : String → ℕ → Schedule → List Schedule → List Schedule
put_locked pipeline tenant_id row [] = []
put_locked pipeline tenant_id row (s ∷ schedules) =
    if has_key pipeline tenant_id s
    then row ∷ schedules
    else s ∷ put_locked pipeline tenant_id row schedules

-- The constraint `ck_schedules_pause_origin`.
unfoldable pub pause_origin : Schedule → Bool
pause_origin s =
    (not s.paused && not (is_some s.paused_by))
    || (s.paused && (s.paused_by == some "user" || s.paused_by == some "recovery"))

-- `_cron_tz`
abbrev pub cron_tz : Snapshot → String × String
cron_tz s = (s.cron, s.timezone)

abbrev pub cron_tz_or_none : Option Snapshot → Option (String × String)
cron_tz_or_none none = none
cron_tz_or_none (some s) = some (cron_tz s)

abbrev pub snapshot_of : Option Schedule → Option Snapshot
snapshot_of none = none
snapshot_of (some s) = some (snapshot_row s)

-- What all four methods are given: the key of the row, the origin and the instant.
pub record LiveRequest : Type 0 where
  pub pipeline : String
  pub tenant_id : ℕ
  pub origin : Origin
  pub now : ℕ

-- `_emit`: an event when an emitter was injected.
unfoldable pub emit_live : LiveEvent → Live → List LiveEvent
emit_live event live = if live.emitter then live.events ++ (event ∷ []) else live.events

-- The flush checks the constraints, `_append_change` and the commit follow, and then the event.
unfoldable pub commit_change :
    LiveRequest
    → ChangeKind
    → Option Schedule
    → Schedule
    → List Schedule
    → LiveEvent
    → Live
    → Fallible LiveError (Schedule × Live)
unfolding pause_origin emit_live
commit_change r kind before row schedules event live =
    if pause_origin row
    then ok (
      row,
      record live {
        schedules = schedules;
        changes =
            live.changes
            ++ (record {
              pipeline = r.pipeline;
              change_kind = kind;
              before = snapshot_of before;
              after = snapshot_row row;
              origin = r.origin;
              tenant_id = r.tenant_id;
              changed_at = r.now;
            }
                ∷ []);
        events = emit_live event live;
      },
    )
    else err check_violation

-- `_mutate`
unfoldable pub mutate :
    LiveRequest
    → ChangeKind
    → LiveEvent
    → (Schedule → Schedule)
    → Live
    → Fallible LiveError (Schedule × Live)
unfolding get_locked put_locked commit_change
mutate r kind event apply live = elim (get_locked r.pipeline r.tenant_id live.schedules) [
  | none ↦ err schedule_not_found
  | some s ↦
      let row = record (apply s) { updated_at = r.now } in
      commit_change r kind (some s) row (put_locked r.pipeline r.tenant_id row live.schedules) event
        live
]

abbrev pub apply_pause : Option String → Schedule → Schedule
apply_pause reason s = record s { paused = true; paused_by = some "user"; pause_reason = reason }

abbrev pub apply_resume : Schedule → Schedule
apply_resume s = record s { paused = false; paused_by = none; pause_reason = none }

unfoldable pub pause : LiveRequest → Live → Fallible LiveError (Schedule × Live)
unfolding mutate
pause r live =
    mutate r paused (schedule_paused r.pipeline r.origin) (apply_pause r.origin.reason) live

unfoldable pub resume : LiveRequest → Live → Fallible LiveError (Schedule × Live)
unfolding mutate
resume r live = mutate r resumed (schedule_resumed r.pipeline r.origin) apply_resume live

abbrev pub or_old : Option String → String → String
or_old none old = old
or_old (some new) old = new

-- A row with the defaults of the columns.
abbrev pub new_schedule : String → LiveRequest → String → String → String → ℕ → Schedule
new_schedule id r cron target timezone tick = record {
  id = id;
  pipeline = r.pipeline;
  cron = cron;
  target = target;
  timezone = timezone;
  tenant_id = r.tenant_id;
  paused = false;
  paused_by = none;
  pause_reason = none;
  next_fires_at = some tick;
  last_fired_at = none;
  created_at = r.now;
  updated_at = r.now;
}

abbrev pub retimed : LiveRequest → String → String → String → ℕ → Schedule → Schedule
retimed r cron target timezone tick s = record s {
  cron = cron;
  target = target;
  timezone = timezone;
  next_fires_at = some tick;
  updated_at = r.now;
}

-- The tail that `set_cron` and `seed` share, once the tick is known: the primary key refuses a second
-- row with the new id.
unfoldable pub upsert :
    String
    → LiveRequest
    → ChangeKind
    → Option Schedule
    → Schedule
    → LiveEvent
    → Live
    → Fallible LiveError (Schedule × Live)
unfolding get_schedule put_locked commit_change
upsert id r kind none row event live =
    if is_some (get_schedule id live.schedules)
    then err integrity_error
    else commit_change r kind none row (live.schedules ++ (row ∷ [])) event live
upsert id r kind (some s) row event live =
    commit_change r kind (some s) row (put_locked r.pipeline r.tenant_id row live.schedules) event
      live

module _ (lib : Croniter) where
  abbrev pub changed : LiveRequest → Option Schedule → Schedule → LiveEvent
  changed r before row =
      schedule_changed r.pipeline (cron_tz_or_none (snapshot_of before)) (row.cron, row.timezone)
        r.origin

  -- The row of `set_cron`; the tick is computed in the row's zone.
  unfoldable pub set_cron_row :
      String
      → LiveRequest
      → String
      → Option String
      → Option String
      → Option Schedule
      → Option Schedule
  unfolding next_tick_after
  set_cron_row id r cron target timezone none =
      elim (next_tick_after lib cron r.now (or_old timezone "UTC")) [
        | none ↦ none
        | some tick ↦
            some (new_schedule id r cron (or_old target "prod") (or_old timezone "UTC") tick)
      ]
  set_cron_row id r cron target timezone (some s) =
      elim (next_tick_after lib cron r.now (or_old timezone s.timezone)) [
        | none ↦ none
        | some tick ↦
            some (retimed r cron (or_old target s.target) (or_old timezone s.timezone) tick s)
      ]

  unfoldable pub set_cron :
      String
      → LiveRequest
      → String
      → Option String
      → Option String
      → Live
      → Fallible LiveError (Schedule × Live)
  unfolding set_cron_row get_locked upsert
  set_cron id r cron target timezone live =
      let before = get_locked r.pipeline r.tenant_id live.schedules in
      elim (set_cron_row id r cron target timezone before) [
        | none ↦ err cron_error
        | some row ↦ upsert id r cron_set before row (changed r before row) live
      ]

  -- change_kind="reseed" if before is not None else "set_cron"
  abbrev pub seed_kind : Option Schedule → ChangeKind
  seed_kind none = cron_set
  seed_kind (some s) = reseeded

  abbrev pub seeded_row :
      String → LiveRequest → String → String → String → ℕ → Option Schedule → Schedule
  seeded_row id r cron target timezone tick none = new_schedule id r cron target timezone tick
  seeded_row id r cron target timezone tick (some s) = retimed r cron target timezone tick s

  -- The source of the trail's row is `seed`, and the request's origin has no reason and no actor.
  unfoldable pub seed :
      String → LiveRequest → String → String → String → Live → Fallible LiveError (Schedule × Live)
  unfolding next_tick_after get_locked upsert
  seed id r cron target timezone live = elim (next_tick_after lib cron r.now timezone) [
    | none ↦ err cron_error
    | some tick ↦
        let before = get_locked r.pipeline r.tenant_id live.schedules in
        let by_seed = record r {
          origin = record { source = "seed"; reason = none; actor_token_id = none };
        } in
        upsert id by_seed (seed_kind before) before
          (seeded_row id r cron target timezone tick before) (schedule_seeded r.pipeline cron) live
  ]
