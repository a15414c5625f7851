-- ===== src/Scheduler/Table/Advance.antt =====
-- `set_last_fired` of src/carve/core/state/schedules.py.
use carve.Common.{
  ℕ, ◌<◌, String, some, List, [], ◌∷◌, ◌&&◌, not, leb, ◌==◌, string_eq, nat_eq, ◌≡◌, sym, arith,
  Bool-cases, Option-cases, inl, inr,
}
use carve.Scheduler.Cron.{Croniter, NextIsLater, next_tick_after}
use carve.Scheduler.Table.{
  Schedule, is_due, get_schedule, put_schedule, anchor, advanced, written, set_last_fired,
}

get_schedule-id :
    (id : String) (schedules : List Schedule) (s : Schedule)
    → get_schedule id schedules ≡ some s
    → s.id ≡ id
unfolding get_schedule
get_schedule-id id [] s e = cc
get_schedule-id id (t ∷ schedules) s e = elim (Bool-cases (t.id == id)) [
  | inl hit ↦ let same : t ≡ s = ground arith in let there : t.id ≡ id = ground arith in cc
  | inr miss ↦ get_schedule-id id schedules s (ground arith)
]

get_schedule-put :
    (id : String) (schedules : List Schedule) (s t : Schedule)
    → get_schedule id schedules ≡ some s
    → t.id ≡ id
    → get_schedule id (put_schedule t schedules) ≡ some t
unfolding get_schedule put_schedule
get_schedule-put id [] s t e same = cc
get_schedule-put id (u ∷ schedules) s t e same = ground (arith, get_schedule-put id schedules s t)

next_tick_after-later :
    (lib : Croniter) (cron zone : String) (after tick : ℕ)
    → NextIsLater lib
    → next_tick_after lib cron after zone ≡ some tick
    → after < tick
unfolding next_tick_after
next_tick_after-later lib cron zone after tick later e = later cron zone after tick (ground arith)

-- If the cron library's next tick is later than the instant it is given, a fire that lands moves
-- the time of its schedule strictly forward, to the tick after the one it was due for. The schedule
-- is due again at once exactly when that tick has passed as well, unless it is paused.
pub set_last_fired-advances :
    (lib : Croniter) (id : String) (now : ℕ) (schedules schedules' : List Schedule) (s : Schedule)
    → NextIsLater lib
    → get_schedule id schedules ≡ some s
    → set_last_fired lib id now schedules ≡ written schedules'
    → (tick : ℕ) × (next_tick_after lib s.cron (anchor now s.next_fires_at) s.timezone ≡ some tick)
      × (anchor now s.next_fires_at < tick)
      × (get_schedule id schedules' ≡ some (advanced now tick s))
      × (is_due s.tenant_id now (advanced now tick s) ≡ (not s.paused && leb tick now))
unfolding set_last_fired is_due
set_last_fired-advances lib id now schedules schedules' s later found e =
    elim (Option-cases (next_tick_after lib s.cron (anchor now s.next_fires_at) s.timezone)) [
      | inl bad ↦ absurd (cc (rw (found, bad, set_last_fired) at e))
      | inr hit ↦
          let (tick, next) = hit in
          let same : put_schedule (advanced now tick s) schedules ≡ schedules' =
            cc (rw (found, next, set_last_fired) at e) in
          (
            tick,
            next,
            next_tick_after-later lib s.cron s.timezone _ tick later next,
            rw (sym same) (
                get_schedule-put id schedules s (advanced now tick s) found
                  (get_schedule-id id schedules s found)),
            ground arith,
          )
    ]
