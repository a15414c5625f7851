-- ===== src/Scheduler/Table.antt =====
-- The `schedules` table as the scheduler reads and writes it: `list_due` and `set_last_fired` of
-- src/carve/core/state/schedules.py.
pub mod Advance
use carve.Common.{
  ℕ, String, Bool, true, false, Option, none, some, List, [], ◌∷◌, ◌&&◌, not, leb, ltb, ◌==◌,
  string_eq, nat_eq, if◌then◌else◌,
}
use carve.Scheduler.Cron.{Croniter, next_tick_after}

pub record Schedule : Type 0 where
  pub id : String
  pub pipeline : String
  pub cron : String
  pub target : String
  pub timezone : String
  pub tenant_id : ℕ
  pub paused : Bool
  pub paused_by : Option String
  pub pause_reason : Option String
  pub next_fires_at : Option ℕ
  pub last_fired_at : Option ℕ
  pub created_at : ℕ
  pub updated_at : ℕ

-- next_fires_at IS NOT NULL AND next_fires_at <= :now
abbrev pub has_passed : ℕ → Option ℕ → Bool
has_passed now none = false
has_passed now (some t) = leb t now

unfoldable pub is_due : ℕ → ℕ → Schedule → Bool
is_due tenant_id now s = s.tenant_id == tenant_id && not s.paused && has_passed now s.next_fires_at

-- The time of the ORDER BY; a row without one is never due.
abbrev pub fire_time : Option ℕ → ℕ
fire_time none = 0
fire_time (some t) = t

unfoldable pub insert_due : Schedule → List Schedule → List Schedule
insert_due s [] = s ∷ []
insert_due s (t ∷ due) =
    let rest = insert_due s due in
    if ltb (fire_time t.next_fires_at) (fire_time s.next_fires_at) then t ∷ rest else s ∷ t ∷ due

-- ORDER BY next_fires_at ASC
unfoldable pub list_due : ℕ → ℕ → List Schedule → List Schedule
unfolding insert_due
list_due tenant_id now [] = []
list_due tenant_id now (s ∷ schedules) =
    let rest = list_due tenant_id now schedules in
    if is_due tenant_id now s then insert_due s rest else rest

-- session.get(Schedule, id)
unfoldable pub get_schedule : String → List Schedule → Option Schedule
get_schedule id [] = none
get_schedule id (s ∷ schedules) = if s.id == id then some s else get_schedule id schedules

unfoldable pub put_schedule : Schedule → List Schedule → List Schedule
put_schedule s [] = []
put_schedule s (t ∷ schedules) =
    let rest = put_schedule s schedules in if t.id == s.id then s ∷ schedules else t ∷ rest

pub data ScheduleError : Type 0 where
  schedule_not_found cron_error : ScheduleError

pub data Written : Type 0 where
  written : List Schedule → Written
  failed : ScheduleError → Written

-- schedule.next_fires_at if it is not None else now
abbrev pub anchor : ℕ → Option ℕ → ℕ
anchor now none = now
anchor now (some t) = t

abbrev pub advanced : ℕ → ℕ → Schedule → Schedule
advanced now tick s = record s {
  last_fired_at = some now;
  next_fires_at = some tick;
  updated_at = now;
}

unfoldable pub set_last_fired : Croniter → String → ℕ → List Schedule → Written
set_last_fired lib id now schedules = elim (get_schedule id schedules) [
  | none ↦ failed schedule_not_found
  | some s ↦ elim (next_tick_after lib s.cron (anchor now s.next_fires_at) s.timezone) [
    | none ↦ failed cron_error
    | some tick ↦ written (put_schedule (advanced now tick s) schedules)
  ]
]
