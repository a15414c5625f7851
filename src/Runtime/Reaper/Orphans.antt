-- ===== src/Runtime/Reaper/Orphans.antt =====
-- The runs of reclaimed jobs (src/carve/runtime/reaper.py).
use carve.Common.{
  ℕ, String, Bool, true, false, Option, none, some, List, [], ◌∷◌, ◌≡◌, refl, arith, inl, inr,
  Bool-cases, or_left, Option-cases, string_eq, ◌==◌, if◌then◌else◌, ◌||◌, contains,
}
use carve.Queue.Table.{Job, update_where}
use carve.Queue.Rows.{store-cases}
use carve.Queue.Single.{IsRow}
use carve.Queue.Reclaim.{requeue, stale, snapshot, reclaim_stale}
use carve.Runtime.Store.{
  Store, Run, run_failed, run_key, find_row, change_row, change_status, write_row,
  update_run_status, of_queue,
}
use carve.Runtime.Store.Rows.{find_row-change_row}
use carve.Runtime.Call.{Site, replied, World, at_orphan, at_reclaim, transaction}
use carve.Runtime.Call.Ensures.{
  Ensures, returns, commits, aborts, ensured, Ensures-transaction, Ensures-bind, Ensures-mono,
}
use carve.Runtime.Reaper.{Row, fail_orphan, emit_reclaimed, fail_orphans, job_ids, reap_stale_once}

-- The run is there, and the run is there and failed.
abbrev pub HasRun : String → Store → Type 0
HasRun run_id s = (r : Run) × (find_row run_key run_id s.runs ≡ some r)

abbrev pub HasFailed : String → Store → Type 0
HasFailed run_id s = (r : Run) × (find_row run_key run_id s.runs ≡ some r) × (r.status ≡ run_failed)

abbrev Anything : Store → Type 0
Anything s = Unit

-- Marking a run failed keeps the runs that are there, and those that have failed.
module _ (other : String) (error : Option String) (now : ℕ) (s : Store) where
  abbrev marked : List Run
  marked = change_row run_key other (change_status run_failed error now) s.runs

  Found-after :
      (run_id : String)
      → find_row run_key run_id marked ≡ (
          if run_id == other
          then elim (find_row run_key run_id s.runs) [
            | none ↦ none
            | some r ↦ some (change_status run_failed error now r)
          ]
          else find_row run_key run_id s.runs)
  unfolding change_status
  Found-after run_id =
      find_row-change_row run_key run_id other (change_status run_failed error now) s.runs
        (λ r. refl)

  has_after : (run_id : String) → HasRun run_id s → HasRun run_id (record s { runs = marked })
  has_after run_id (r, e) = elim (Bool-cases (run_id == other)) [
    | inl same ↦ (change_status run_failed error now r, ground (arith, Found-after run_id))
    | inr differs ↦ (r, ground (arith, Found-after run_id))
  ]

  failed_after :
      (run_id : String)
      → HasRun run_id s
      → (run_id == other) ≡ true
      → HasFailed run_id (record s { runs = marked })
  unfolding change_status
  failed_after run_id (r, e) same =
      (change_status run_failed error now r, ground (arith, Found-after run_id), refl)

  failed_still :
      (run_id : String) → HasFailed run_id s → HasFailed run_id (record s { runs = marked })
  failed_still run_id (r, e, f) = elim (Bool-cases (run_id == other)) [
    | inl same ↦ failed_after run_id (r, e) same
    | inr differs ↦ (r, ground (arith, Found-after run_id), f)
  ]

abbrev is_run : String → Option String → Bool
is_run run_id none = false
is_run run_id (some r) = run_id == r

-- Some reclaimed row has the run.
unfoldable has_orphan : String → List Row → Bool
has_orphan run_id [] = false
has_orphan run_id ((job_id, run, owner) ∷ rows) = is_run run_id run || has_orphan run_id rows

-- What the loop over some rows does to a run.
record Marks (run_id : String) (orphan : Bool) (s s' : Store) : Type 0 where
  has : HasRun run_id s → HasRun run_id s'
  failed : HasFailed run_id s → HasFailed run_id s'
  marks : orphan ≡ true → HasRun run_id s → HasFailed run_id s'

unmarked : (run_id : String) (s : Store) → Marks run_id false s s
unmarked run_id s = record { has = λ h. h; failed = λ f. f; marks = λ no h. absurd (cc) }

-- One row after the other.
then_Marks :
    (run_id : String) (first rest : Bool) (s t v : Store)
    → Marks run_id first s t
    → Marks run_id rest t v
    → Marks run_id (first || rest) s v
then_Marks run_id first rest s t v a b = record {
  has = λ h. b.has (a.has h);
  failed = λ f. b.failed (a.failed f);
  marks = λ some_row h. elim (Bool-cases first) [
    | inl here ↦ b.failed (a.marks here h)
    | inr later ↦ b.marks (ground arith) (a.has h)
  ];
}

module _ (w : World) (quiet : (site : Site) (s : Store) → w.others site s ≡ s)
    (run_id : String) where
  orphan-Marks :
      (job_id : String) (run : Option String) (s : Store)
      → Ensures
          (λ _ s'. Marks run_id (is_run run_id run) s s')
          Anything
          (fail_orphan w job_id run s)
  unfolding fail_orphan update_run_status write_row
  orphan-Marks job_id none s = returns (unmarked run_id s)
  orphan-Marks job_id (some r) s =
      let site = at_orphan job_id in
      let error = some "worker_crashed_or_unreachable" in
      Ensures-transaction w site (update_run_status r run_failed error (w.clock site)) s tt (
        rw (quiet site s) (elim (Option-cases (find_row run_key r s.runs)) [
          | inl none_there ↦ rw (none_there, update_run_status, write_row) (aborts tt)
          | inr (old, there) ↦
              rw (there, update_run_status, write_row)
                (commits (record {
                  has = has_after r error (w.clock site) s run_id;
                  failed = failed_still r error (w.clock site) s run_id;
                  marks = λ same h. failed_after r error (w.clock site) s run_id h same;
                }))
        ]))

  loop-Marks :
      (rows : List Row) (s : Store)
      → Ensures
          (λ _ s'. Marks run_id (has_orphan run_id rows) s s')
          Anything
          (fail_orphans w rows s)
  unfolding fail_orphans has_orphan emit_reclaimed
  loop-Marks [] s = returns (unmarked run_id s)
  loop-Marks ((job_id, run, owner) ∷ rows) s =
      Ensures-bind (fail_orphan w job_id run) _ s (orphan-Marks job_id run s) λ n t first.
        Ensures-bind {P = λ _ s'. Marks run_id (is_run run_id run) s s'}
          (emit_reclaimed w (job_id, run, owner)) _ t
          (returns (record { has = first.has; failed = first.failed; marks = first.marks }))
          λ m t' kept.
            Ensures-mono _ (loop-Marks rows t')
              (λ l v rest.
                then_Marks run_id (is_run run_id run) (has_orphan run_id rows) s t' v kept rest)
              (λ v x. tt)

-- The statement returns each stale row.
snapshot-orphan :
    (test : Job → Bool) (run_id : String) (j : Job) (jobs : List Job)
    → IsRow j jobs
    → test j ≡ true
    → is_run run_id j.run_id ≡ true
    → has_orphan run_id (snapshot test jobs) ≡ true
unfolding snapshot has_orphan
snapshot-orphan test run_id j [] row t r = absurd row
snapshot-orphan test run_id j (k ∷ jobs) (inl e) t r = rw (← e, t) (or_left _ _ r)
snapshot-orphan test run_id j (k ∷ jobs) (inr row) t r =
    let rest = snapshot-orphan test run_id j jobs row t r in
    elim (Bool-cases (test k)) [
      | inl y ↦ rw y (or_right (is_run run_id k.run_id) _ rest)
      | inr n ↦ rw n rest
    ]
  where
    or_right : (a b : Bool) → b ≡ true → (a || b) ≡ true
    or_right a b h = ground arith

snapshot-id :
    (test : Job → Bool) (j : Job) (jobs : List Job)
    → IsRow j jobs
    → test j ≡ true
    → contains (job_ids (snapshot test jobs)) j.id ≡ true
unfolding snapshot job_ids
snapshot-id test j [] row t = absurd row
snapshot-id test j (k ∷ jobs) (inl e) t = rw (← e, t) (ground arith)
snapshot-id test j (k ∷ jobs) (inr row) t =
    let rest = snapshot-id test j jobs row t in
    elim (Bool-cases (test k)) [ inl y ↦ rw y (ground (arith, rest)) | inr n ↦ rw n rest ]

module _ (w : World) (quiet : (site : Site) (s : Store) → w.others site s ≡ s)
    (locked : String → Bool) (tenant_id now threshold : ℕ) (s : Store) (run_id : String) where
  abbrev Reaped : List String → Store → Type 0
  Reaped ids s' =
      (j : Job)
      → IsRow j s.queue.jobs
      → stale locked tenant_id now threshold j ≡ true
      → (contains ids j.id ≡ true)
        × (is_run run_id j.run_id ≡ true → HasRun run_id s → HasFailed run_id s')

  abbrev Swept : List Row → Store → Type 0
  Swept rows t =
      (rows ≡ snapshot (stale locked tenant_id now threshold) s.queue.jobs)
      × (HasRun run_id s → HasRun run_id t)

  sweep-Swept : Ensures Swept Anything (
      transaction w at_reclaim
        (λ t. of_queue t (reclaim_stale locked tenant_id now threshold t.queue))
        s)
  unfolding reclaim_stale of_queue
  sweep-Swept = Ensures-transaction w at_reclaim _ s tt (
      rw (quiet at_reclaim s)
        (elim (store-cases
          (update_where (stale locked tenant_id now threshold) requeue s.queue.jobs)) [
            | inl fits ↦ rw fits (commits (refl, λ h. h))
            | inr clash ↦ rw clash (aborts tt)
          ]))

  pass-Reaped : Ensures Reaped Anything (reap_stale_once w locked tenant_id now threshold s)
  unfolding reap_stale_once
  pass-Reaped = Ensures-bind (transaction w at_reclaim _) _ s sweep-Swept λ rows t (all, has).
      Ensures-bind (fail_orphans w rows) _ t (loop-Marks w quiet run_id rows t) λ n t' m.
        returns (λ j row st. (
          rw all (snapshot-id (stale locked tenant_id now threshold) j s.queue.jobs row st),
          λ r h.
              m.marks
                (rw all (
                  snapshot-orphan (stale locked tenant_id now threshold) run_id j s.queue.jobs row
                    st r))
                (has h),
        ))

  -- With no other process between its calls, a pass of the reaper that returns names every stale job,
  -- and the run that such a job had in flight has failed.
  pub reap-fails_orphans :
      (ids : List String) (s' : Store) (j : Job)
      → reap_stale_once w locked tenant_id now threshold s ≡ replied ids s'
      → IsRow j s.queue.jobs
      → stale locked tenant_id now threshold j ≡ true
      → j.run_id ≡ some run_id
      → HasRun run_id s
      → (contains ids j.id ≡ true) × HasFailed run_id s'
  reap-fails_orphans ids s' j e row st r h =
      let (named, fails) = ensured (rw e at pass-Reaped) j row st in
      (named, fails (rw r (ground arith)) h)
