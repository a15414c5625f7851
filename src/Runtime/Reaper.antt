-- ===== src/Runtime/Reaper.antt =====
-- One pass of the reaper: `reap_stale_once` of src/carve/runtime/reaper.py. The loop around it is
-- timing.
pub mod Orphans
use carve.Common.{ℕ, String, Bool, Option, none, some, List, [], ◌∷◌}
use carve.Queue.Table.{job_reclaimed, emit}
use carve.Queue.Reclaim.{reclaim_stale}
use carve.Runtime.Store.{Store, NoValue, no_value, run_failed, update_run_status, of_queue}
use carve.Runtime.Call.{Site, at_reclaim, at_orphan, Call, World, give, transaction, ◌>>=◌}

abbrev pub Row : Type 0
Row = String × Option String × Option String

unfoldable pub job_ids : List Row → List String
job_ids [] = []
job_ids ((job_id, run_id, owner) ∷ rows) = job_id ∷ job_ids rows

module _ (w : World) where
  -- The in-flight run of the row, if it has one; the instant is the row's.
  unfoldable pub fail_orphan : String → Option String → Call NoValue
  fail_orphan job_id none = give no_value
  fail_orphan job_id (some run_id) = transaction w (at_orphan job_id) (
      update_run_status run_id run_failed (some "worker_crashed_or_unreachable")
        (w.clock (at_orphan job_id)))

  -- The event has the constant reason `stale_heartbeat`.
  unfoldable pub emit_reclaimed : Row → Call NoValue
  emit_reclaimed (job_id, run_id, owner) s =
      give no_value (record s { queue = emit (job_reclaimed job_id run_id owner) s.queue })

  -- The loop over the reclaimed rows; an exception ends it.
  unfoldable pub fail_orphans : List Row → Call NoValue
  unfolding fail_orphan emit_reclaimed
  fail_orphans [] = give no_value
  fail_orphans ((job_id, run_id, owner) ∷ rows) = fail_orphan job_id run_id >>= λ _.
      emit_reclaimed (job_id, run_id, owner) >>= λ _. fail_orphans rows

  unfoldable pub reap_stale_once : (String → Bool) → ℕ → ℕ → ℕ → Call (List String)
  unfolding fail_orphans job_ids
  reap_stale_once locked tenant_id now threshold =
      transaction w at_reclaim
        (λ s. of_queue s (reclaim_stale locked tenant_id now threshold s.queue))
      >>= λ rows. fail_orphans rows >>= λ _. give (job_ids rows)
