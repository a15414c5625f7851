-- ===== src/Queue/Enqueue/Dedup.antt =====
-- `enqueue_scheduled` and `enqueue_manual` of src/carve/core/state/job_queue.py and the index of the
-- queued rows.
use carve.Common.{
  ℕ, String, Bool, true, false, Option, none, some, List, [], ◌∷◌, ◌++◌, ◌≡◌, refl, ◌&&◌, arith,
  inl, inr, if◌then◌else◌, string_eq, nat_eq, Bool-cases,
}
use carve.Queue.Table.{
  Job, Queue, job_queued, queued_job_already_exists, ok, err, is_queued, in_slot, occupied, get_job,
  has_id, update_where, emit,
}
use carve.Queue.Rows.{
  count_if, in_index, WellFormed, update_where-WellFormed, count_of_no_id, count_of_free,
  store_of_WellFormed, count-append, store-cases, occupied-append,
}
use carve.Queue.Single.{
  IsRow, IsRow-append, IsRow-of_get_job, count_of_row, get_job_of_row, get_job-update_where,
  jobs-emit,
}
use carve.Queue.Enqueue.{
  Request, new_job, queued_event, enqueue_scheduled, find_queued, refresh, enqueue_manual,
}

append-WellFormed :
    (job_id : String) (now : ℕ) (r : Request) (jobs : List Job)
    → WellFormed jobs
    → has_id job_id jobs ≡ false
    → occupied is_queued r.pipeline r.tenant_id jobs ≡ false
    → WellFormed (jobs ++ (new_job job_id now r ∷ []))
append-WellFormed job_id now r jobs w fresh free =
    let j = new_job job_id now r in
    record {
      ids_once =
          λ id. rw count-append (ground (arith, w.ids_once id, count_of_no_id job_id jobs fresh));
      queued_once = λ p t. rw count-append (
          ground
            (arith, w.queued_once p t, count_of_free is_queued r.pipeline r.tenant_id jobs free));
      running_once = λ p t. rw count-append (ground (arith, w.running_once p t));
    }

abbrev pub scheduled : Request → Request
scheduled r = record r { trigger = "scheduled" }

module _ (job_id : String) (now : ℕ) (r : Request) (q : Queue) where
  -- With a fresh id, `enqueue_scheduled` is refused with `QueuedJobAlreadyExists` exactly when the
  -- pipeline of the tenant has a queued job; else it appends its row, and no index is violated.
  pub enqueue_scheduled_exact :
      WellFormed q.jobs
      → has_id job_id q.jobs ≡ false
      → enqueue_scheduled job_id now r q ≡ (
          if occupied is_queued r.pipeline r.tenant_id q.jobs
          then err queued_job_already_exists
          else ok (
            new_job job_id now (scheduled r),
            queued_event
                (new_job job_id now (scheduled r))
                (record q { jobs = q.jobs ++ (new_job job_id now (scheduled r) ∷ []) }),
          ))
  unfolding enqueue_scheduled
  enqueue_scheduled_exact w fresh =
      elim (Bool-cases (occupied is_queued r.pipeline r.tenant_id q.jobs)) [
        | inl busy ↦ rw busy
        | inr free ↦ rw (
          free,
          store_of_WellFormed _ (append-WellFormed job_id now (scheduled r) q.jobs w fresh free),
        )
      ]

  -- After `enqueue_scheduled` succeeds the same request is refused, whatever id and time come with it.
  pub enqueue_scheduled_twice :
      (j : Job) (q' : Queue) (other_id : String) (later : ℕ)
      → enqueue_scheduled job_id now r q ≡ ok (j, q')
      → enqueue_scheduled other_id later r q' ≡ err queued_job_already_exists
  unfolding enqueue_scheduled
  enqueue_scheduled_twice j q' other_id later h =
      let row = new_job job_id now (scheduled r) in
      ground (
        arith,
        store-cases (q.jobs ++ (row ∷ [])),
        occupied-append is_queued r.pipeline r.tenant_id q.jobs row,
        jobs-emit (job_queued row.id row.pipeline row.target row.trigger row.scheduled_for)
            (record q { jobs = q.jobs ++ (row ∷ []) }),
      )

find_queued-none :
    (p : String) (t : ℕ) (jobs : List Job)
    → find_queued p t jobs ≡ none
    → occupied is_queued p t jobs ≡ false
unfolding find_queued occupied
find_queued-none p t [] h = refl
find_queued-none p t (j ∷ jobs) h = ground (arith, find_queued-none p t jobs)

find_queued-some :
    (p : String) (t : ℕ) (jobs : List Job) (j : Job)
    → find_queued p t jobs ≡ some j
    → IsRow j jobs × (in_index is_queued p t j ≡ true)
unfolding find_queued
find_queued-some p t [] j h = absurd (cc)
find_queued-some p t (k ∷ jobs) j h = elim (Bool-cases (in_index is_queued p t k)) [
  | inl y ↦ (inl (ground arith), ground arith)
  | inr n ↦ let (r, e) = find_queued-some p t jobs j (ground arith) in (inr r, e)
]

-- What a manual request leaves: the row that it returns, found by its id, and queued in the slot as
-- the only one; it carries the request's trigger, target and label, and no due time.
pub record IsCoalesced (r : Request) (j : Job) (jobs : List Job) : Type 0 where
  pub well_formed : WellFormed jobs
  pub found : get_job j.id jobs ≡ some j
  pub only : count_if (in_index is_queued r.pipeline r.tenant_id) jobs ≡ 1
  pub queued_row : in_index is_queued r.pipeline r.tenant_id j ≡ true
  pub trigger : j.trigger ≡ r.trigger
  pub target : j.target ≡ r.target
  pub label : j.required_label ≡ r.required_label
  pub at_once : j.scheduled_for ≡ none

module _ (r : Request) (jobs : List Job) (j : Job) (w : WellFormed jobs) (i : IsRow j jobs)
    (s : in_index is_queued r.pipeline r.tenant_id j ≡ true) where
  abbrev in_request : Job → Bool
  in_request k = is_queued k.status && in_slot r.pipeline r.tenant_id k

  -- The conflict target is unique, so the UPDATE reaches the row that was found and no other.
  refresh-WellFormed : WellFormed (update_where in_request (refresh r) jobs)
  refresh-WellFormed =
      update_where-WellFormed in_request (refresh r) jobs w (λ k. refl) (λ p t k _. omega arith)
        (λ p t k _. omega arith)

  refresh-IsCoalesced : IsCoalesced r (refresh r j) (update_where in_request (refresh r) jobs)
  refresh-IsCoalesced =
      let after = refresh-WellFormed in
      let found =
        get_job-update_where j.id in_request (refresh r) jobs (λ k. refl) j
          (get_job_of_row j jobs w.ids_once i) in
      let there : get_job j.id (update_where in_request (refresh r) jobs) ≡ some (refresh r j) =
        rw s at found in
      record {
        well_formed = after;
        found = there;
        only = omega (
          arith,
          after.queued_once r.pipeline r.tenant_id,
          count_of_row (in_index is_queued r.pipeline r.tenant_id) (refresh r j) _
              (IsRow-of_get_job j.id _ (refresh r j) there).0 s,
        );
        queued_row = s;
        trigger = refl;
        target = refl;
        label = refl;
        at_once = refl;
      }

abbrev at_once : Request → Request
at_once r = record r { scheduled_for = none }

insert-IsCoalesced :
    (job_id : String) (now : ℕ) (r : Request) (jobs : List Job)
    → WellFormed jobs
    → has_id job_id jobs ≡ false
    → occupied is_queued r.pipeline r.tenant_id jobs ≡ false
    → IsCoalesced r (new_job job_id now (at_once r)) (jobs ++ (new_job job_id now (at_once r) ∷ []))
insert-IsCoalesced job_id now r jobs w fresh free =
    let j = new_job job_id now (at_once r) in
    let after = append-WellFormed job_id now (at_once r) jobs w fresh free in
    let row = IsRow-append j jobs in
    let s : in_index is_queued r.pipeline r.tenant_id j ≡ true = ground arith in
    record {
      well_formed = after;
      found = get_job_of_row j (jobs ++ (j ∷ [])) after.ids_once row;
      only = omega (
        arith,
        after.queued_once r.pipeline r.tenant_id,
        count_of_row (in_index is_queued r.pipeline r.tenant_id) j _ row s,
      );
      queued_row = s;
      trigger = refl;
      target = refl;
      label = refl;
      at_once = refl;
    }

-- The id that a manual request ends up with.
abbrev pub manual_id : String → Option Job → String
manual_id job_id none = job_id
manual_id job_id (some k) = k.id

abbrev pub Coalesces : String → ℕ → Request → Queue → Option Job → Type 0
Coalesces job_id now r q found =
    (j : Job) × (q' : Queue) × (enqueue_manual job_id now r q ≡ ok (j, q'))
    × IsCoalesced r j q'.jobs
    × (j.id ≡ manual_id job_id found)

module _ (job_id : String) (now : ℕ) (r : Request) (q : Queue) where
  manual_cases :
      WellFormed q.jobs
      → has_id job_id q.jobs ≡ false
      → (found : Option Job) → find_queued r.pipeline r.tenant_id q.jobs ≡ found
      → Coalesces job_id now r q found
  unfolding enqueue_manual
  manual_cases w fresh none e =
      let free = find_queued-none r.pipeline r.tenant_id q.jobs e in
      let j = new_job job_id now (at_once r) in
      let ready =
        store_of_WellFormed _ (append-WellFormed job_id now (at_once r) q.jobs w fresh free) in
      (
        j,
        queued_event j (record q { jobs = q.jobs ++ (j ∷ []) }),
        rw (e, enqueue_manual) (rw ready),
        rw jobs-emit (insert-IsCoalesced job_id now r q.jobs w fresh free),
        refl,
      )
  manual_cases w fresh (some j) e =
      let (row, s) = find_queued-some r.pipeline r.tenant_id q.jobs j e in
      let ready = store_of_WellFormed _ (refresh-WellFormed r q.jobs j w row s) in
      (
        refresh r j,
        emit (job_queued j.id r.pipeline r.target r.trigger none)
            (record q { jobs = update_where (in_request r q.jobs j w row s) (refresh r) q.jobs }),
        rw (e, enqueue_manual) (rw ready),
        rw jobs-emit (refresh-IsCoalesced r q.jobs j w row s),
        refl,
      )

  -- With a fresh id a manual request always succeeds. Its row is then the only queued one of its
  -- slot, has the request's trigger, target and label and no due time; it keeps the id of the queued
  -- row that was there before, if there was one, and no index is violated.
  pub enqueue_manual-Coalesces :
      WellFormed q.jobs
      → has_id job_id q.jobs ≡ false
      → Coalesces job_id now r q (find_queued r.pipeline r.tenant_id q.jobs)
  enqueue_manual-Coalesces w fresh = manual_cases w fresh _ refl
