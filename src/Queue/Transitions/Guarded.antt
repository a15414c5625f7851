-- ===== src/Queue/Transitions/Guarded.antt =====
-- The ownership guards of src/carve/core/state/job_queue.py.
use carve.Common.{ℕ, String, false, Option, some, ◌≡◌, ◌≢◌, arith, string_eq, nat_eq, option_eq}
use carve.Queue.Table.{Job, Status, Queue, ok, get_job, any_row}
use carve.Queue.Rows.{WellFormed}
use carve.Queue.Single.{OnlyId, any_row_by_id, store_unchanged}
use carve.Queue.Transitions.{
  claim_of, hold_of, start_run, finish, transition_to_running, mark_finished, may_beat,
  update_heartbeat,
}

pub claim_of-OnlyId : (id worker_id : String) → OnlyId id (claim_of id worker_id)
claim_of-OnlyId id worker_id k h = ground arith

pub hold_of-OnlyId : (id worker_id : String) → OnlyId id (hold_of id worker_id)
hold_of-OnlyId id worker_id k h = ground arith

module _ (id : String) (q : Queue) (j : Job) (w : WellFormed q.jobs)
    (g : get_job id q.jobs ≡ some j) where
  pub by_claim :
      (worker_id : String) → any_row (claim_of id worker_id) q.jobs ≡ claim_of id worker_id j
  by_claim worker_id =
      any_row_by_id id (claim_of id worker_id) j q.jobs w.ids_once (claim_of-OnlyId id worker_id) g

  pub by_hold :
      (worker_id : String) → any_row (hold_of id worker_id) q.jobs ≡ hold_of id worker_id j
  by_hold worker_id =
      any_row_by_id id (hold_of id worker_id) j q.jobs w.ids_once (hold_of-OnlyId id worker_id) g

  -- A worker whose claim on a job is gone (released, reclaimed, or taken by another) writes nothing:
  -- its transition and its finish report that they did not land, and its beat is dropped, so that the
  -- table is what the others make of it meanwhile.
  pub lost_claim_writes_nothing :
      (worker_id run_id : String) (status : Status) (error : Option String) (now : ℕ)
      (between : Queue → Queue)
      → j.claimed_by ≢ some worker_id
      → (transition_to_running id run_id (some worker_id) now q ≡ ok (false, q))
        × (mark_finished id status error (some worker_id) now q ≡ ok (false, q))
        × (update_heartbeat between id now (some worker_id) q ≡ ok (between q))
  unfolding transition_to_running mark_finished update_heartbeat may_beat
  lost_claim_writes_nothing worker_id run_id status error now between n =
      let c : any_row (claim_of id worker_id) q.jobs ≡ false = ground (arith, by_claim worker_id) in
      let h : any_row (hold_of id worker_id) q.jobs ≡ false = ground (arith, by_hold worker_id) in
      (
        rw (store_unchanged (claim_of id worker_id) (start_run run_id now) q.jobs w c, c),
        rw (store_unchanged (hold_of id worker_id) (finish status error now) q.jobs w h, h),
        ground (arith, g),
      )
