-- ===== src/Scheduler/Cron.antt =====
-- src/carve/runtime/cron.py over the croniter and zoneinfo libraries, which are parameters. Times
-- are microseconds.
use carve.Common.{ℕ, ◌+◌, ◌<◌, String, Bool, Option, none, some, ◌≡◌, if◌then◌else◌}

-- What the libraries answer; `none` of `get_next` and `get_prev` is `CroniterBadDateError`.
pub record Croniter : Type 0 where
  pub is_zone : String → Bool
  pub is_valid : String → Bool
  pub get_next : String → String → ℕ → Option ℕ
  pub get_prev : String → String → ℕ → Option ℕ

-- The next tick comes strictly after the given instant.
abbrev pub NextIsLater : Croniter → Type 0
NextIsLater lib =
    (cron zone : String) (after tick : ℕ) → lib.get_next cron zone after ≡ some tick → after < tick

-- `none` is the `CronError`.
unfoldable pub next_tick_after : Croniter → String → ℕ → String → Option ℕ
next_tick_after lib cron after zone =
    if lib.is_zone zone
    then if lib.is_valid cron then lib.get_next cron zone after else none
    else none

-- The instant is moved by one microsecond, so that a tick at `now` counts.
unfoldable pub this_tick_at : Croniter → String → ℕ → String → Option ℕ
this_tick_at lib cron now zone =
    if lib.is_zone zone
    then if lib.is_valid cron then lib.get_prev cron zone (now + 1) else none
    else none
