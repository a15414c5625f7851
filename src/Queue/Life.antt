-- ===== src/Queue/Life.antt =====
-- The abstract life of one job of src/carve/core/state/job_queue.py: what the queue promises of a job
-- once its row, its times and its payload are forgotten. A release of a job that is over is no move
-- of it.
pub mod View
use carve.Common.{String, Bool, true, false, Option, some, ◌≡◌}
use carve.Queue.Table.{Status, queued, claimed, running, succeeded, failed, cancelled, timed_out}

pub data Phase : Type 0 where
  absent waiting : Phase
  claimed_for running_for : Option String → Phase
  over : Status → Phase

abbrev pub phase_at : Status → Option String → Phase
phase_at queued owner = waiting
phase_at claimed owner = claimed_for owner
phase_at running owner = running_for owner
phase_at succeeded owner = over succeeded
phase_at failed owner = over failed
phase_at cancelled owner = over cancelled
phase_at timed_out owner = over timed_out

abbrev pub is_terminal : Status → Bool
is_terminal queued = false
is_terminal claimed = false
is_terminal running = false
is_terminal _ = true

-- One move of a job. A job that is over has none, and an owner changes only by way of `waiting`.
pub data Move : Phase → Phase → Type 0 where
  arrive : Move absent waiting
  take : (worker : String) → Move waiting (claimed_for (some worker))
  start : (worker : String) → Move (claimed_for (some worker)) (running_for (some worker))
  end_claimed :
      (worker : String) (status : Status)
      → is_terminal status ≡ true
      → Move (claimed_for (some worker)) (over status)
  end_running :
      (worker : String) (status : Status)
      → is_terminal status ≡ true
      → Move (running_for (some worker)) (over status)
  give_up : (owner : Option String) → Move (claimed_for owner) waiting
  lose : (owner : Option String) → Move (running_for owner) waiting

-- What a guarded step of the queue does: it leaves a job where it is or makes one move of it.
pub data Life (before : Phase) (after : Phase) : Type 0 where
  stay : after ≡ before → Life before after
  move : Move before after → Life before after
