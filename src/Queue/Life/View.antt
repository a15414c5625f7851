-- ===== src/Queue/Life/View.antt =====
-- The phase of a job in the `jobs` table, and what an UPDATE or an INSERT does to it
-- (src/carve/core/state/job_queue.py).
use carve.Common.{
  String, Bool, true, false, Option, none, some, List, [], ◌∷◌, ◌++◌, ◌≡◌, refl, arith, inl, inr,
  string_eq, nat_eq, option_eq, ap, ◌==◌, Bool-cases,
}
use mathlib.Core.Option.{some-injective}
use carve.Queue.Table.{
  Job, Status, queued, claimed, running, succeeded, failed, cancelled, timed_out, is_held,
  is_claimed, is_queued, get_job, update_where,
}
use carve.Queue.Rows.{WellFormed}
use carve.Queue.Single.{IsRow, get_job_of_row}
use carve.Queue.Life.{
  Phase, absent, waiting, running_for, over, phase_at, is_terminal, Move, Life, stay, move, arrive,
  start, end_claimed, end_running, give_up, lose,
}

abbrev pub phase_of : Job → Phase
phase_of j = phase_at j.status j.claimed_by

abbrev pub phase_in : Option Job → Phase
phase_in none = absent
phase_in (some j) = phase_of j

-- The view of the queue: the phase of each id.
abbrev pub view : List Job → String → Phase
view jobs id = phase_in (get_job id jobs)

-- An UPDATE that moves each row that it reaches moves every job.
pub view-update_where :
    (test : Job → Bool) (f : Job → Job) (jobs : List Job) (id : String)
    → ((k : Job) → (f k).id ≡ k.id)
    → ((k : Job) → IsRow k jobs → test k ≡ true → Life (phase_of k) (phase_of (f k)))
    → Life (view jobs id) (view (update_where test f jobs) id)
unfolding get_job update_where
view-update_where test f [] id keep h = stay refl
view-update_where test f (j ∷ jobs) id keep h =
    let rest = view-update_where test f jobs id keep (λ k r. h k (inr r)) in
    elim (Bool-cases (test j)) [
      | inr n ↦ elim (Bool-cases (j.id == id)) [
        | inl y ↦ rw (n, y) (stay refl)
        | inr o ↦ rw (n, o) rest
      ]
      | inl t ↦ elim (Bool-cases (j.id == id)) [
        | inl y ↦ rw (t, keep j, y) (h j (inl refl) t)
        | inr o ↦ rw (t, keep j, o) rest
      ]
    ]

-- An UPDATE of the row with an id, as a lookup sees it.
pub get_job_updated :
    (id : String) (f : Job → Job) (jobs : List Job) (j : Job)
    → ((k : Job) → (f k).id ≡ k.id)
    → get_job id jobs ≡ some j
    → get_job id (update_where (λ k. k.id == id) f jobs) ≡ some (f j)
unfolding get_job update_where
get_job_updated id f [] j keep h = absurd (cc)
get_job_updated id f (k ∷ jobs) j keep h = elim (Bool-cases (k.id == id)) [
  | inl y ↦
      let same : some k ≡ some j = rw y at h in
      let moved : ((f k).id == id) ≡ true = ground (arith, keep k, y) in
      rw (y, moved) (ap (λ o. some (f o)) (some-injective k j same))
  | inr n ↦ rw (n, n) (get_job_updated id f jobs j keep (rw n at h))
]

pub get_job_other :
    (id other : String) (f : Job → Job) (jobs : List Job)
    → ((k : Job) → (f k).id ≡ k.id)
    → (id == other) ≡ false
    → get_job other (update_where (λ k. k.id == id) f jobs) ≡ get_job other jobs
unfolding get_job update_where
get_job_other id other f [] keep d = refl
get_job_other id other f (k ∷ jobs) keep d =
    ground (arith, keep k, get_job_other id other f jobs keep d)

-- An INSERT of a queued row brings its job, unless the id is taken.
pub view-append :
    (j : Job) (jobs : List Job) (id : String)
    → j.status ≡ queued
    → Life (view jobs id) (view (jobs ++ (j ∷ [])) id)
unfolding get_job
view-append j [] id q = elim (Bool-cases (j.id == id)) [
  | inl y ↦ rw (y, q) (move arrive)
  | inr o ↦ rw o (stay refl)
]
view-append j (k ∷ jobs) id q = elim (Bool-cases (k.id == id)) [
  | inl y ↦ rw y (stay refl)
  | inr o ↦ rw o (view-append j jobs id q)
]

-- A row is the only one with its id.
pub same_row :
    (j k : Job) (jobs : List Job)
    → WellFormed jobs
    → IsRow j jobs
    → IsRow k jobs
    → k.id ≡ j.id
    → k ≡ j
same_row j k jobs w rj rk e =
    let at_k = rw e at (get_job_of_row k jobs w.ids_once rk) in
    some-injective k j (cc (at_k, get_job_of_row j jobs w.ids_once rj))

terminal-over :
    (s : Status) (owner : Option String) → is_terminal s ≡ true → phase_at s owner ≡ over s
terminal-over queued owner h = cc
terminal-over claimed owner h = cc
terminal-over running owner h = cc
terminal-over succeeded owner h = refl
terminal-over failed owner h = refl
terminal-over cancelled owner h = refl
terminal-over timed_out owner h = refl

ends_from :
    (s after : Status) (worker : String)
    → is_held s ≡ true
    → is_terminal after ≡ true
    → Move (phase_at s (some worker)) (over after)
ends_from claimed after worker h t = end_claimed worker after t
ends_from running after worker h t = end_running worker after t
ends_from queued after worker h t = absurd (cc)
ends_from succeeded after worker h t = absurd (cc)
ends_from failed after worker h t = absurd (cc)
ends_from cancelled after worker h t = absurd (cc)
ends_from timed_out after worker h t = absurd (cc)

-- A held job of a worker that gets a terminal status is over.
pub held_ends :
    (s after : Status) (owner : Option String) (worker : String)
    → owner ≡ some worker
    → is_held s ≡ true
    → is_terminal after ≡ true
    → Life (phase_at s owner) (phase_at after owner)
held_ends s after owner worker e h t =
    rw (e, terminal-over after (some worker) t) (move (ends_from s after worker h t))

-- A held job goes back to the queue.
pub held_returns :
    (s : Status) (owner : Option String) → is_held s ≡ true → Life (phase_at s owner) waiting
held_returns claimed owner h = move (give_up owner)
held_returns running owner h = move (lose owner)
held_returns queued owner h = absurd (cc)
held_returns succeeded owner h = absurd (cc)
held_returns failed owner h = absurd (cc)
held_returns cancelled owner h = absurd (cc)
held_returns timed_out owner h = absurd (cc)

pub claimed_starts :
    (s : Status) (owner : Option String) (worker : String)
    → owner ≡ some worker
    → is_claimed s ≡ true
    → Life (phase_at s owner) (running_for owner)
claimed_starts claimed owner worker e h = rw e (move (start worker))
claimed_starts queued owner worker e h = absurd (cc)
claimed_starts running owner worker e h = absurd (cc)
claimed_starts succeeded owner worker e h = absurd (cc)
claimed_starts failed owner worker e h = absurd (cc)
claimed_starts cancelled owner worker e h = absurd (cc)
claimed_starts timed_out owner worker e h = absurd (cc)

-- From a queued row the phase does not depend on the owner.
pub queued_waits :
    (s : Status) (owner : Option String) → is_queued s ≡ true → phase_at s owner ≡ waiting
queued_waits queued owner h = refl
queued_waits claimed owner h = cc
queued_waits running owner h = cc
queued_waits succeeded owner h = cc
queued_waits failed owner h = cc
queued_waits cancelled owner h = cc
queued_waits timed_out owner h = cc
