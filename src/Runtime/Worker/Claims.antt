-- ===== src/Runtime/Worker/Claims.antt =====
-- The rows that a worker holds, and what the calls of src/carve/runtime/worker.py do to them.
use carve.Common.{
  String, Bool, true, false, some, List, [], ◌∷◌, ◌≡◌, ◌≢◌, refl, arith, string_eq, nat_eq,
  option_eq, ◌==◌, ◌&&◌,
}
use carve.Queue.Table.{
  Job, Queue, QueueError, Result, ok, err, is_running, is_held, update_where, any_row,
}
use carve.Queue.Rows.{WellFormed}
use carve.Queue.Single.{OnlyId}
use carve.Queue.Transitions.{claim_of, hold_of}
use carve.Runtime.Store.{Store, of_queue, of_queue_only}
use carve.Runtime.Call.{Site, World}
use carve.Runtime.Call.Ensures.{Commits, commits, aborts}

-- A process that answers a call of a queue method.
module _ {A : Type 0} {P : A → Store → Type 0} {E : Type 0} where
  pub of_queue-Commits :
      (s : Store) (r : Result (A × Queue))
      → ((a : A) (q : Queue) → r ≡ ok (a, q) → P a (record s { queue = q }))
      → ((e : QueueError) → r ≡ err e → E)
      → Commits P E (of_queue s r)
  unfolding of_queue
  of_queue-Commits s (ok (a, q)) good bad = commits (good a q refl)
  of_queue-Commits s (err e) good bad = aborts (bad e refl)

module _ {P : Store → Type 0} {E : Type 0} where
  pub of_queue_only-Commits :
      (s : Store) (r : Result Queue)
      → ((q : Queue) → r ≡ ok q → P (record s { queue = q }))
      → E
      → Commits (λ _. P) E (of_queue_only s r)
  unfolding of_queue_only
  of_queue_only-Commits s (ok q) good bad = commits (good q refl)
  of_queue_only-Commits s (err e) good bad = aborts bad

module _ (test : Job → Bool) (f : Job → Job) (p : Job → Bool) where
  -- An UPDATE that makes no row pass.
  pub none_made :
      (jobs : List Job)
      → ((k : Job) → test k ≡ true → p (f k) ≡ false)
      → any_row p jobs ≡ false
      → any_row p (update_where test f jobs) ≡ false
  unfolding any_row update_where
  none_made [] h n = refl
  none_made (j ∷ jobs) h n = ground (arith, h j, none_made jobs h)

  -- An UPDATE that reaches all rows that pass, and none passes after it.
  pub none_left :
      (jobs : List Job)
      → ((k : Job) → test k ≡ true → p (f k) ≡ false)
      → ((k : Job) → test k ≡ false → p k ≡ false)
      → any_row p (update_where test f jobs) ≡ false
  unfolding any_row update_where
  none_left [] h n = refl
  none_left (j ∷ jobs) h n = ground (arith, h j, n j, none_left jobs h n)

-- A job that runs for a worker.
abbrev pub run_of : String → String → Job → Bool
run_of job_id worker_id j =
    j.id == job_id && (j.claimed_by == some worker_id && is_running j.status)

-- A held job is claimed or runs.
pub held_of_either :
    (job_id worker_id : String) (jobs : List Job)
    → any_row (claim_of job_id worker_id) jobs ≡ false
    → any_row (run_of job_id worker_id) jobs ≡ false
    → any_row (hold_of job_id worker_id) jobs ≡ false
unfolding any_row
held_of_either job_id worker_id [] c r = refl
held_of_either job_id worker_id (j ∷ jobs) c r =
    ground (arith, held_of_either job_id worker_id jobs)

module _ (me : String) where
  -- The worker holds no row, or at most that of one job.
  pub record IdleIn (jobs : List Job) : Type 0 where
    pub formed : WellFormed jobs
    pub none_held : (id : String) → any_row (hold_of id me) jobs ≡ false

  pub record OnlyIn (job_id : String) (jobs : List Job) : Type 0 where
    pub formed : WellFormed jobs
    pub no_other : (id : String) → id ≢ job_id → any_row (hold_of id me) jobs ≡ false

  -- The claimed job has not been started.
  pub record FreshIn (job_id : String) (jobs : List Job) : Type 0 where
    pub only : OnlyIn job_id jobs
    pub not_running : any_row (run_of job_id me) jobs ≡ false

  abbrev pub Idle : Store → Type 0
  Idle s = IdleIn s.queue.jobs

  abbrev pub Only : String → Store → Type 0
  Only job_id s = OnlyIn job_id s.queue.jobs

  abbrev pub Fresh : String → Store → Type 0
  Fresh job_id s = FreshIn job_id s.queue.jobs

  pub Idle-Only : (job_id : String) (s : Store) → Idle s → Only job_id s
  Idle-Only job_id s i = record { formed = i.formed; no_other = λ id n. i.none_held id }

  -- The other processes keep the table well formed, and none claims or starts a job in this worker's
  -- name.
  pub record Fair (w : World) : Type 0 where
    pub keeps :
        (site : Site) (s : Store)
        → WellFormed s.queue.jobs
        → WellFormed (w.others site s).queue.jobs
    pub grants_none :
        (site : Site) (s : Store) (id : String)
        → any_row (hold_of id me) s.queue.jobs ≡ false
        → any_row (hold_of id me) (w.others site s).queue.jobs ≡ false
    pub starts_none :
        (site : Site) (s : Store) (id : String)
        → any_row (run_of id me) s.queue.jobs ≡ false
        → any_row (run_of id me) (w.others site s).queue.jobs ≡ false

  module _ (w : World) (fair : Fair w) (site : Site) (s : Store) where
    pub others-Idle : Idle s → Idle (w.others site s)
    others-Idle i = record {
      formed = fair.keeps site s i.formed;
      none_held = λ id. fair.grants_none site s id (i.none_held id);
    }

    pub others-Only : (job_id : String) → Only job_id s → Only job_id (w.others site s)
    others-Only job_id o = record {
      formed = fair.keeps site s o.formed;
      no_other = λ id n. fair.grants_none site s id (o.no_other id n);
    }

    pub others-Fresh : (job_id : String) → Fresh job_id s → Fresh job_id (w.others site s)
    others-Fresh job_id f = record {
      only = others-Only job_id f.only;
      not_running = fair.starts_none site s job_id f.not_running;
    }

  module _ (job_id : String) (test : Job → Bool) (f : Job → Job) (jobs : List Job) where
    -- An UPDATE of rows of the job that keeps their ids.
    pub updated-Only :
        OnlyId job_id test
        → ((k : Job) → (f k).id ≡ k.id)
        → OnlyIn job_id jobs
        → WellFormed (update_where test f jobs)
        → OnlyIn job_id (update_where test f jobs)
    updated-Only only keep o w = record {
      formed = w;
      no_other = λ id n.
          none_made test f (hold_of id me) jobs (λ k t. ground (arith, only k t, keep k, n))
            (o.no_other id n);
    }

    -- An UPDATE that leaves no row of the job held.
    pub updated-Idle :
        OnlyId job_id test
        → ((k : Job) → (f k).id ≡ k.id)
        → ((k : Job) → test k ≡ true → is_held (f k).status ≡ false)
        → ((k : Job) → test k ≡ false → hold_of job_id me k ≡ false)
        → OnlyIn job_id jobs
        → WellFormed (update_where test f jobs)
        → IdleIn (update_where test f jobs)
    updated-Idle only keep free rest o w = record {
      formed = w;
      none_held = λ id. elim (string_eq.dec id job_id) [
        | yes same ↦
            rw same
              (none_left test f (hold_of job_id me) jobs (λ k t. ground (arith, free k t)) rest)
        | no other ↦ (updated-Only only keep o w).no_other id other
      ];
    }
