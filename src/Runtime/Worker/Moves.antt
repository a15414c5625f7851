-- ===== src/Runtime/Worker/Moves.antt =====
-- What each transaction of src/carve/runtime/worker.py leaves a worker with.
use carve.Common.{
  ℕ, String, Bool, true, false, Option, none, some, List, ◌≡◌, refl, arith, inl, inr, string_eq,
  nat_eq, option_eq, ◌==◌, Option-cases,
}
use mathlib.Core.Path.{subst}
use carve.Queue.Table.{
  Job, Status, Queue, Result, ok, err, is_queued, update_where, any_row, get_job, is_held,
}
use carve.Queue.Rows.{WellFormed, store_of_WellFormed, update_where-WellFormed}
use carve.Queue.Single.{update_where_none}
use carve.Queue.Claim.{claim_next, take_claim}
use carve.Queue.Claim.Oldest.{claim_next_oldest}
use carve.Queue.Claim.Once.{claim-Took}
use carve.Queue.Transitions.{
  transition_to_running, mark_finished, release_claim, may_beat, stamp_heartbeat, claim_of, hold_of,
  start_run, finish, drop_claim,
}
use carve.Queue.Transitions.Guarded.{claim_of-OnlyId, hold_of-OnlyId}
use carve.Queue.System.Lives.{stored_then, serialized_then}
use carve.Runtime.Store.{Store, of_queue, of_queue_only, of_queue_read}
use carve.Runtime.Call.Ensures.{Commits, commits, aborts}
use carve.Runtime.Worker.Claims.{
  of_queue-Commits, of_queue_only-Commits, IdleIn, OnlyIn, Idle, Only, Fresh, run_of, none_left,
  held_of_either, updated-Only, updated-Idle,
}

module _ (me : String) where
  -- After a claim the worker holds the job that was returned, not yet started, and no other.
  abbrev pub Found : Option Job → Store → Type 0
  Found none s = Idle me s
  Found (some j) s = Fresh me j.id s

  Found-after :
      (locked : String → Bool) (label : Option String) (now : ℕ) (s : Store) (found : Option Job)
      (q : Queue)
      → Idle me s
      → claim_next locked me label 1 now s.queue ≡ ok (found, q)
      → Found found (record s { queue = q })
  Found-after locked label now s none q i e =
      elim (claim_next_oldest locked me label 1 now s.queue i.formed) [
        | inl n ↦ let same : s.queue ≡ q = cc (n.1) in subst (λ x. IdleIn me x.jobs) same i
        | inr found ↦ absurd (let (j, may, first, after, got) = found in cc)
      ]
  Found-after locked label now s (some j) q i e =
      let took = claim-Took locked me label 1 now s.queue j q i.formed e in
      let rows =
        updated-Only me took.row.id (λ k. k.id == took.row.id) (take_claim me now) s.queue.jobs
          (λ k t. ground arith) (λ k. refl)
          (record { formed = i.formed; no_other = λ id n. i.none_held id })
          (rw (← took.left) took.still_formed) in
      let unstarted =
        none_left (λ k. k.id == took.row.id) (take_claim me now) (run_of took.row.id me)
          s.queue.jobs (λ k t. ground arith) (λ k t. ground arith) in
      rw (took.returned, took.left) (record { only = rows; not_running = unstarted })

  pub claim-Commits :
      (locked : String → Bool) (label : Option String) (now : ℕ) (s : Store)
      → Idle me s
      → Commits Found (Idle me s) (of_queue s (claim_next locked me label 1 now s.queue))
  claim-Commits locked label now s i =
      of_queue-Commits s (claim_next locked me label 1 now s.queue)
        (λ found q e. Found-after locked label now s found q i e) (λ e r. i)

  -- After the guarded transition the worker holds the job only if it reports that it landed.
  abbrev pub Started : String → Bool → Store → Type 0
  Started job_id true s = Only me job_id s
  Started job_id false s = Idle me s

  module _ (job_id run_id : String) (now : ℕ) (s : Store) (f : Fresh me job_id s) where
    abbrev rows_after : List Job
    rows_after = update_where (claim_of job_id me) (start_run run_id now) s.queue.jobs

    Started-after :
        (moved : Bool)
        → any_row (claim_of job_id me) s.queue.jobs ≡ moved
        → WellFormed rows_after
        → Started job_id moved (record s { queue = record s.queue { jobs = rows_after } })
    Started-after true e w =
        updated-Only me job_id (claim_of job_id me) (start_run run_id now) s.queue.jobs
          (claim_of-OnlyId job_id me) (λ k. refl) f.only w
    Started-after false e w =
        rw (update_where_none (claim_of job_id me) (start_run run_id now) s.queue.jobs e) (record {
          formed = f.only.formed;
          none_held = λ id. elim (string_eq.dec id job_id) [
            | yes same ↦ rw same (held_of_either job_id me s.queue.jobs e f.not_running)
            | no other ↦ f.only.no_other id other
          ];
        })

    pub start-Commits :
        Commits
          (Started job_id)
          (Only me job_id s)
          (of_queue s (transition_to_running job_id run_id (some me) now s.queue))
    unfolding transition_to_running
    start-Commits =
        of_queue-Commits s (transition_to_running job_id run_id (some me) now s.queue)
          (λ moved q e.
            let (w, p) = serialized_then rows_after _ (moved, q) e in
            let landed : any_row (claim_of job_id me) s.queue.jobs ≡ moved = cc in
            let same : record s.queue { jobs = rows_after } ≡ q = cc in
            subst (λ x. Started job_id moved (record s { queue = x })) same
              (Started-after moved landed w))
          (λ e r. f.only)

  module _ (job_id : String) (s : Store) (o : Only me job_id s) where
    -- The guarded finish never fails, and leaves no row of the job held.
    pub finish-Commits :
        (status : Status) (error : Option String) (now : ℕ)
        → is_held status ≡ false
        → is_queued status ≡ false
        → Commits
            (λ landed. Idle me)
            ⊥
            (of_queue s (mark_finished job_id status error (some me) now s.queue))
    unfolding mark_finished of_queue
    finish-Commits status error now free waits =
        let test = hold_of job_id me in
        let f = finish status error now in
        let after : WellFormed (update_where test f s.queue.jobs) =
          update_where-WellFormed test f s.queue.jobs o.formed (λ k. refl) (λ p t k _. ground arith)
            (λ p t k _. ground arith) in
        rw (store_of_WellFormed _ after) (
          commits (
            updated-Idle me job_id test f s.queue.jobs (hold_of-OnlyId job_id me) (λ k. refl)
              (λ k t. free) (λ k t. t) o after))

    release_stored : (q : Queue) → release_claim job_id s.queue ≡ ok q → IdleIn me q.jobs
    unfolding release_claim
    release_stored q e = elim (Option-cases (get_job job_id s.queue.jobs)) [
      | inl n ↦ absurd (cc (rw (n, release_claim) at e))
      | inr (j, g) ↦
          let test : Job → Bool = λ k. k.id == job_id in
          let (w, p) =
            stored_then (update_where test drop_claim s.queue.jobs) _ q
              (rw (g, release_claim) at e) in
          let same : update_where test drop_claim s.queue.jobs ≡ q.jobs = ground arith in
          subst (IdleIn me) same (
            updated-Idle me job_id test drop_claim s.queue.jobs (λ k t. ground arith) (λ k. refl)
              (λ k t. refl) (λ k t. ground arith) o w)
    ]

    stamp_stored :
        (now : ℕ) (q : Queue) → stamp_heartbeat job_id now s.queue ≡ ok q → OnlyIn me job_id q.jobs
    unfolding stamp_heartbeat
    stamp_stored now q e =
        let test : Job → Bool = λ k. k.id == job_id in
        let f : Job → Job = λ k. record k { heartbeat_at = some now } in
        let (w, p) = stored_then (update_where test f s.queue.jobs) _ q e in
        let same : update_where test f s.queue.jobs ≡ q.jobs = ground arith in
        subst (OnlyIn me job_id) same
          (updated-Only me job_id test f s.queue.jobs (λ k t. ground arith) (λ k. refl) o w)

    pub release-Commits :
        Commits (λ _. Idle me) (Only me job_id s) (of_queue_only s (release_claim job_id s.queue))
    release-Commits = of_queue_only-Commits s (release_claim job_id s.queue) release_stored o

    read_keeps :
        (mine : Result Bool)
        → Commits (λ _. Only me job_id) (Only me job_id s) (of_queue_read s mine)
    unfolding of_queue_read
    read_keeps (ok mine) = commits o
    read_keeps (err e) = aborts o

    pub read-Commits :
        Commits
          (λ _. Only me job_id)
          (Only me job_id s)
          (of_queue_read s (may_beat job_id (some me) s.queue))
    read-Commits = read_keeps (may_beat job_id (some me) s.queue)

    pub stamp-Commits :
        (now : ℕ)
        → Commits
            (λ _. Only me job_id)
            (Only me job_id s)
            (of_queue_only s (stamp_heartbeat job_id now s.queue))
    stamp-Commits now =
        of_queue_only-Commits s (stamp_heartbeat job_id now s.queue) (stamp_stored now) o
