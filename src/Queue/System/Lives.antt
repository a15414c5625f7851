-- ===== src/Queue/System/Lives.antt =====
-- Each method of src/carve/core/state/job_queue.py as a move of the jobs' lives.
use carve.Common.{
  ℕ, String, Bool, true, Option, none, some, List, ◌≡◌, refl, arith, inl, inr, string_eq, nat_eq,
  option_eq, ◌==◌, Bool-cases, Option-cases, sym, ap, ◌⊎◌, ◌∙◌,
}
use carve.Queue.Table.{
  Job, Status, Queue, Result, queued, claimed, running, succeeded, failed, cancelled, timed_out, ok,
  ◌>>=◌, get_job, update_where, store, is_queued,
}
use carve.Queue.Rows.{WellFormed, WellFormed-of_store, store-cases}
use carve.Queue.Single.{IsRow}
use carve.Queue.Enqueue.{Request, new_job, refresh, enqueue_manual}
use carve.Queue.Enqueue.Dedup.{scheduled}
use carve.Queue.Enqueue.Stored.{
  Appended, enqueue_scheduled-Appended, in_request, enqueue_manual-stored,
}
use carve.Queue.System.{Step, schedules, enqueues, claims, starts, finishes, releases, beats, reaps}
use carve.Queue.Claim.{claim_next, take_claim}
use carve.Queue.Claim.Once.{claim-Took}
use carve.Queue.Transitions.{
  transition_to_running, mark_finished, release_claim, stamp_heartbeat, claim_of, hold_of,
  start_run, finish, drop_claim, serialized,
}
use carve.Queue.Reclaim.{reclaim_stale, stale, requeue}
use carve.Queue.Life.{Life, stay, move, take, give_up, lose, waiting, over, phase_at, is_terminal}
use carve.Queue.Life.View.{
  phase_of, phase_in, get_job_updated, get_job_other, view, view-update_where, view-append,
  same_row, held_ends, held_returns, claimed_starts, queued_waits,
}

-- What a transaction with a guard does: the table stays well formed, and each job lives on.
record Lived (q q' : Queue) : Type 0 where
  well_formed : WellFormed q'.jobs
  lives : (id : String) → Life (view q.jobs id) (view q'.jobs id)

-- What a step does to one job: it lives on, or it was over and a release of that very job puts it back
-- into the queue.
pub data Course (id : String) (q q' : Queue) : Type 0 where
  lives_on : Life (view q.jobs id) (view q'.jobs id) → Course id q q'
  reopens :
      (status : Status)
      → view q.jobs id ≡ over status
      → view q'.jobs id ≡ waiting
      → release_claim id q ≡ ok q'
      → Course id q q'

-- What every transaction that succeeds does.
pub record Kept (q q' : Queue) : Type 0 where
  pub well_formed : WellFormed q'.jobs
  pub courses : (id : String) → Course id q q'

Lived-Kept : (q q' : Queue) → Lived q q' → Kept q q'
Lived-Kept q q' l = record { well_formed = l.well_formed; courses = λ id. lives_on (l.lives id) }

-- A transaction that stores some rows and ends with a queue of them.
pub stored_then :
    {A : Type 0} (jobs : List Job) (next : List Job → Result A) (a : A)
    → (store jobs >>= next) ≡ ok a
    → WellFormed jobs × (next jobs ≡ ok a)
stored_then jobs next a h = elim (store-cases jobs) [
  | inl e ↦ ((WellFormed-of_store jobs jobs e).1, rw e at h)
  | inr e ↦ absurd (cc (rw e at h))
]

pub serialized_then :
    {A : Type 0} (jobs : List Job) (next : List Job → Result A) (a : A)
    → (serialized (store jobs) >>= next) ≡ ok a
    → WellFormed jobs × (next jobs ≡ ok a)
unfolding serialized
serialized_then jobs next a h = elim (store-cases jobs) [
  | inl e ↦ ((WellFormed-of_store jobs jobs e).1, rw e at h)
  | inr e ↦ absurd (cc (rw e at h))
]

-- An UPDATE that was stored.
module _ (test : Job → Bool) (f : Job → Job) (q q' : Queue) where
  updated :
      WellFormed (update_where test f q.jobs)
      → update_where test f q.jobs ≡ q'.jobs
      → ((k : Job) → (f k).id ≡ k.id)
      → ((k : Job) → IsRow k q.jobs → test k ≡ true → Life (phase_of k) (phase_of (f k)))
      → Lived q q'
  updated w e keep h = record {
    well_formed = rw (← e) w;
    lives = λ id. rw (← e) (view-update_where test f q.jobs id keep h);
  }

starts-Lived :
    (id run worker : String) (now : ℕ) (landed : Bool) (q q' : Queue)
    → transition_to_running id run (some worker) now q ≡ ok (landed, q')
    → Lived q q'
unfolding transition_to_running
starts-Lived id run worker now landed q q' h =
    let test = claim_of id worker in
    let f = start_run run now in
    let (w, e) = serialized_then (update_where test f q.jobs) _ (landed, q') h in
    updated test f q q' w (ground arith) (λ k. refl)
      (λ k r t. claimed_starts k.status k.claimed_by worker (ground arith) (ground arith))

finishes-Lived :
    (id worker : String) (status : Status) (error : Option String) (now : ℕ) (landed : Bool)
    (q q' : Queue)
    → is_terminal status ≡ true
    → mark_finished id status error (some worker) now q ≡ ok (landed, q')
    → Lived q q'
unfolding mark_finished
finishes-Lived id worker status error now landed q q' t h =
    let test = hold_of id worker in
    let f = finish status error now in
    let (w, e) = stored_then (update_where test f q.jobs) _ (landed, q') h in
    updated test f q q' w (ground arith) (λ k. refl)
      (λ k r c. held_ends k.status status k.claimed_by worker (ground arith) (ground arith) t)

beats-Lived :
    (id : String) (stamp : ℕ) (q q' : Queue) → stamp_heartbeat id stamp q ≡ ok q' → Lived q q'
unfolding stamp_heartbeat
beats-Lived id stamp q q' h =
    let test : Job → Bool = λ k. k.id == id in
    let f : Job → Job = λ k. record k { heartbeat_at = some stamp } in
    let (w, e) = stored_then (update_where test f q.jobs) _ q' h in
    updated test f q q' w (ground arith) (λ k. refl) (λ k r t. stay refl)

claims-Lived :
    (locked : String → Bool) (worker : String) (label : Option String) (tenant now : ℕ) (j : Job)
    (q q' : Queue)
    → WellFormed q.jobs
    → claim_next locked worker label tenant now q ≡ ok (some j, q')
    → Lived q q'
claims-Lived locked worker label tenant now j q q' w h =
    let took = claim-Took locked worker label tenant now q j q' w h in
    let test : Job → Bool = λ k. k.id == took.row.id in
    updated test (take_claim worker now) q q' (rw (← took.left) took.still_formed) (sym took.left)
      (λ k. refl)
      (λ k r t.
        rw (same_row took.row k q.jobs w took.is_row r (ground arith), took.was_queued)
          (move (take worker)))

reaps-Lived :
    (locked : String → Bool) (tenant now threshold : ℕ)
    (rows : List (String × Option String × Option String)) (q q' : Queue)
    → reclaim_stale locked tenant now threshold q ≡ ok (rows, q')
    → Lived q q'
unfolding reclaim_stale
reaps-Lived locked tenant now threshold rows q q' h =
    let test = stale locked tenant now threshold in
    let (w, e) = stored_then (update_where test requeue q.jobs) _ (rows, q') h in
    updated test requeue q q' w (ground arith) (λ k. refl)
      (λ k r t. held_returns k.status k.claimed_by (unfold stale in ground arith))

appended : (j : Job) (q q' : Queue) → j.status ≡ queued → Appended j q q' → Lived q q'
appended j q q' waits (w, e) = record {
  well_formed = w;
  lives = λ id. rw (← e) (view-append j q.jobs id waits);
}

enqueues-Lived :
    (id : String) (now : ℕ) (r : Request) (j : Job) (q q' : Queue)
    → enqueue_manual id now r q ≡ ok (j, q')
    → Lived q q'
enqueues-Lived id now r j q q' h = elim (enqueue_manual-stored id now r j q q' h) [
  | inl new ↦ appended (new_job id now (record r { scheduled_for = none })) q q' refl new
  | inr (w, e) ↦
      updated (in_request r) (refresh r) q q' (rw e w) e (λ k. refl)
        (λ k row t.
          let waits : is_queued k.status ≡ true = ground arith in
          stay (rw (queued_waits k.status k.claimed_by waits)))
]

-- A released job waits, whatever it was before.
released :
    (s : Status) (owner : Option String)
    → Life (phase_at s owner) waiting ⊎ ((t : Status) × (phase_at s owner ≡ over t))
released queued owner = inl (stay refl)
released claimed owner = inl (move (give_up owner))
released running owner = inl (move (lose owner))
released succeeded owner = inr (succeeded, refl)
released failed owner = inr (failed, refl)
released cancelled owner = inr (cancelled, refl)
released timed_out owner = inr (timed_out, refl)

module _ (id : String) (q q' : Queue) (h : release_claim id q ≡ ok q') where
  -- The one row with the id is updated, and there is one.
  release_of :
      (j : Job) × (get_job id q.jobs ≡ some j)
      × WellFormed (update_where (λ k. k.id == id) drop_claim q.jobs)
      × (update_where (λ k. k.id == id) drop_claim q.jobs ≡ q'.jobs)
  unfolding release_claim
  release_of = elim (Option-cases (get_job id q.jobs)) [
    | inl none_there ↦ absurd (cc (rw (none_there, release_claim) at h))
    | inr (j, g) ↦
        let (w, e) =
          stored_then (update_where (λ k. k.id == id) drop_claim q.jobs) _ q'
            (rw (g, release_claim) at h) in
        (j, g, w, ground arith)
  ]

  own-Course : Course id q q'
  own-Course =
      let (j, g, w, e) = release_of in
      let before : view q.jobs id ≡ phase_of j = ap phase_in g in
      let found : get_job id q'.jobs ≡ some (drop_claim j) =
        rw (← e) (get_job_updated id drop_claim q.jobs j (λ k. refl) g) in
      let after : view q'.jobs id ≡ waiting = ap phase_in found in
      elim (released j.status j.claimed_by) [
        | inl life ↦ lives_on (rw (before, after) life)
        | inr (t, ended) ↦ reopens t (before ∙ ended) after h
      ]

  releases-Kept : Kept q q'
  releases-Kept =
      let (j, g, w, e) = release_of in
      record {
        well_formed = rw (← e) w;
        courses = λ other. elim (Bool-cases (id == other)) [
          | inl same ↦ let eq : id ≡ other = ground arith in rw (← eq) own-Course
          | inr differs ↦ lives_on (
              stay (
                ap phase_in
                  (rw (← e) (get_job_other id other drop_claim q.jobs (λ k. refl) differs))))
        ];
      }

-- Every step of the queue keeps the table well formed and moves each job by its life or not at all,
-- with one exception: a release of a job that is over puts that job back into the queue.
pub Step-Kept : (q q' : Queue) → WellFormed q.jobs → Step q q' → Kept q q'
Step-Kept q q' w (releases id h) = releases-Kept id q q' h
Step-Kept q q' w (schedules id now r j h) = Lived-Kept q q' (
    appended (new_job id now (scheduled r)) q q' refl
      (enqueue_scheduled-Appended id now r j q q' h))
Step-Kept q q' w (enqueues id now r j h) = Lived-Kept q q' (enqueues-Lived id now r j q q' h)
Step-Kept q q' w (claims locked worker label tenant now j h) =
    Lived-Kept q q' (claims-Lived locked worker label tenant now j q q' w h)
Step-Kept q q' w (starts id run worker now landed h) =
    Lived-Kept q q' (starts-Lived id run worker now landed q q' h)
Step-Kept q q' w (finishes id worker status error now landed t h) =
    Lived-Kept q q' (finishes-Lived id worker status error now landed q q' t h)
Step-Kept q q' w (beats id stamp h) = Lived-Kept q q' (beats-Lived id stamp q q' h)
Step-Kept q q' w (reaps locked tenant now threshold rows h) =
    Lived-Kept q q' (reaps-Lived locked tenant now threshold rows q q' h)
