-- ===== src/Scheduler/Fire/Turns.antt =====
-- One turn of the loop of src/carve/runtime/scheduler.py and the jobs it leaves in the queue.
use mathlib.Core.Path.{subst}
use carve.Common.{
  ℕ, suc, ◌+◌, String, Bool, true, false, Option, List, [], ◌∷◌, ◌++◌, ◌&&◌, ◌||◌, not, is_some,
  ◌≡◌, refl, sym, ap, arith, Bool-cases, Option-cases, inl, inr, ◌⊎◌, ◌∙◌, string_eq, nat_eq,
}
use carve.Queue.Table.{
  Queue, Event, schedule_fired, schedule_skipped, Job, Result, ok, err, is_queued, occupied,
}
use carve.Queue.Rows.{occupied-append, in_index}
use carve.Queue.Enqueue.{is_duplicate, new_job, enqueue_scheduled}
use carve.Queue.Enqueue.Dedup.{scheduled}
use carve.Queue.Enqueue.Outcome.{Settles, enqueue_scheduled-Settles}
use carve.Scheduler.Cron.{Croniter, this_tick_at}
use carve.Scheduler.Table.{
  Schedule, ScheduleError, cron_error, Written, written, failed, set_last_fired,
}
use carve.Scheduler.Fire.{
  Runtime, emit, Fired, fired, skipped, unresolved, raised, of_queue, of_schedule, ResolveLabel,
  request_of, advance, settle, fire,
}

abbrev pub size {ℓ} : {A : Type ℓ} → List A → ℕ
size [] = 0
size (x ∷ xs) = suc (size xs)

pub size-append : (new more : List Job) → size (new ++ more) ≡ size new + size more
size-append [] more = omega arith
size-append (j ∷ new) more = ground (arith, size-append new more)

pub append_assoc : (jobs new more : List Job) → (jobs ++ new) ++ more ≡ jobs ++ (new ++ more)
append_assoc [] new more = refl
append_assoc (j ∷ jobs) new more = ap (λ rest. j ∷ rest) (append_assoc jobs new more)

pub append-nil : (jobs : List Job) → jobs ≡ jobs ++ []
append-nil [] = refl
append-nil (j ∷ jobs) = ap (λ rest. j ∷ rest) (append-nil jobs)

-- A slot stays occupied when jobs are added.
pub occupied-more :
    (p : String) (t : ℕ) (jobs more : List Job)
    → occupied is_queued p t jobs ≡ true
    → occupied is_queued p t (jobs ++ more) ≡ true
unfolding occupied
occupied-more p t [] more h = cc
occupied-more p t (j ∷ jobs) more h = ground (arith, occupied-more p t jobs more)

-- The pipeline of the schedule has a queued job, if its label resolves.
abbrev pub served : ResolveLabel → ℕ → List Job → Schedule → Bool
served resolve_label tenant_id jobs s =
    not (is_some (resolve_label s.pipeline)) || occupied is_queued s.pipeline tenant_id jobs

unfoldable pub all_served : ResolveLabel → ℕ → List Job → List Schedule → Bool
all_served resolve_label tenant_id jobs [] = true
all_served resolve_label tenant_id jobs (s ∷ due) =
    served resolve_label tenant_id jobs s && all_served resolve_label tenant_id jobs due

abbrev pub is_raised : Fired → Bool
is_raised (raised e) = true
is_raised _ = false

abbrev is_fired : Fired → Bool
is_fired fired = true
is_fired _ = false

-- One turn leaves every row as it was, adds one job when it fires and none when it does not, and
-- leaves its slot queued.
abbrev pub Turn : ResolveLabel → ℕ → Schedule → List Job → List Job → Fired → Type 0
Turn resolve_label tenant_id s before after o =
    (new : List Job) × (after ≡ before ++ new)
    × ((is_fired o ≡ true → size new ≡ 1) × ((is_fired o || is_raised o) ≡ false → new ≡ []))
    × ((is_raised o || served resolve_label tenant_id after s) ≡ true)

emit-queue : (e : Event) (r : Runtime) → (emit e r).queue ≡ r.queue
unfolding emit
emit-queue e r = ground arith

Written-cases :
    (w : Written)
    → ((xs : List Schedule) × (w ≡ written xs)) ⊎ ((e : ScheduleError) × (w ≡ failed e))
Written-cases (written xs) = inl (xs, refl)
Written-cases (failed e) = inr (e, refl)

advance-keeps :
    (lib : Croniter) (s : Schedule) (now : ℕ) (o : Fired) (r : Runtime)
    → ((advance lib s now o r).0.queue ≡ r.queue)
      × (((advance lib s now o r).1 ≡ o) ⊎ (is_raised (advance lib s now o r).1 ≡ true))
unfolding advance
advance-keeps lib s now o r = elim (Written-cases (set_last_fired lib s.id now r.schedules)) [
  | inl landed ↦ rw (landed.1, advance) (refl, inl refl)
  | inr lost ↦ rw (lost.1, advance) (refl, inr refl)
]

-- A turn that wrote nothing, and did so because the slot is queued or the label did not resolve.
idle-Turn :
    (resolve_label : ResolveLabel) (tenant_id : ℕ) (s : Schedule) (jobs : List Job) (o : Fired)
    → is_fired o ≡ false
    → (is_raised o || served resolve_label tenant_id jobs s) ≡ true
    → Turn resolve_label tenant_id s jobs jobs o
idle-Turn resolve_label tenant_id s jobs o idle ok_slot =
    ([], append-nil jobs, ((λ f. absurd (cc)), λ n. refl), ok_slot)

added-Turn :
    (resolve_label : ResolveLabel) (tenant_id : ℕ) (s : Schedule) (jobs : List Job) (j : Job)
    (o : Fired)
    → in_index is_queued s.pipeline tenant_id j ≡ true
    → (is_fired o || is_raised o) ≡ true
    → Turn resolve_label tenant_id s jobs (jobs ++ (j ∷ [])) o
added-Turn resolve_label tenant_id s jobs j o here went = (
  j ∷ [],
  refl,
  ((λ f. refl), λ n. absurd (cc)),
  ground (arith, occupied-append is_queued s.pipeline tenant_id jobs j),
)

Turn-after :
    (resolve_label : ResolveLabel) (tenant_id : ℕ) (s : Schedule) (before after jobs : List Job)
    (o : Fired)
    → after ≡ jobs
    → Turn resolve_label tenant_id s before jobs o
    → Turn resolve_label tenant_id s before after o
Turn-after resolve_label tenant_id s before after jobs o e turn =
    subst (λ x. Turn resolve_label tenant_id s before x o) (sym e) turn

went_of : (o : Fired) → (o ≡ fired) ⊎ (is_raised o ≡ true) → (is_fired o || is_raised o) ≡ true
went_of fired h = refl
went_of skipped h = ground arith
went_of unresolved h = ground arith
went_of (raised e) h = refl

idle_of : (o : Fired) → (o ≡ skipped) ⊎ (is_raised o ≡ true) → is_fired o ≡ false
idle_of fired h = ground arith
idle_of skipped h = refl
idle_of unresolved h = refl
idle_of (raised e) h = refl

settle-Turn :
    (lib : Croniter) (resolve_label : ResolveLabel) (tenant_id now tick : ℕ) (job_id : String)
    (label : Option String) (s : Schedule) (r : Runtime) (res : Result (Job × Queue))
    → Settles
        (request_of s tick label tenant_id)
        r.queue
        (new_job job_id now (scheduled (request_of s tick label tenant_id)))
        res
    → Turn resolve_label tenant_id s r.queue.jobs
        (settle lib s now tick res r).0.queue.jobs
        (settle lib s now tick res r).1
unfolding settle
settle-Turn lib resolve_label tenant_id now tick job_id label s r (ok (job, queue)) h =
    let fire_event = schedule_fired s.pipeline job.id tick in
    let r' = record r { queue = queue } in
    let (kept, outcome) = advance-keeps lib s now fired (emit fire_event r') in
    Turn-after resolve_label tenant_id s r.queue.jobs _ _ _
      (ap (λ q. q.jobs) (kept ∙ emit-queue fire_event r') ∙ h)
      (added-Turn resolve_label tenant_id s r.queue.jobs
        (new_job job_id now (scheduled (request_of s tick label tenant_id))) _ (ground arith)
        (went_of _ outcome))
settle-Turn lib resolve_label tenant_id now tick job_id label s r (err e) h =
    let skip_event = schedule_skipped s.pipeline tick in
    let (kept, outcome) = advance-keeps lib s now skipped (emit skip_event r) in
    elim (Bool-cases (is_duplicate e)) [
      | inl duplicate ↦ rw (duplicate) (
          Turn-after resolve_label tenant_id s r.queue.jobs _ _ _
            (ap (λ q. q.jobs) (kept ∙ emit-queue skip_event r))
            (idle-Turn resolve_label tenant_id s r.queue.jobs _ (idle_of _ outcome) (ground arith)))
      | inr other ↦
          rw (other)
            (idle-Turn resolve_label tenant_id s r.queue.jobs (raised (of_queue e)) refl refl)
    ]

pub fire-Turn :
    (lib : Croniter) (resolve_label : ResolveLabel) (tenant_id now : ℕ) (job_id : String)
    (s : Schedule) (r : Runtime)
    → Turn resolve_label tenant_id s r.queue.jobs
        (fire lib resolve_label tenant_id now job_id s r).0.queue.jobs
        (fire lib resolve_label tenant_id now job_id s r).1
unfolding fire
fire-Turn lib resolve_label tenant_id now job_id s r =
    elim (Option-cases (this_tick_at lib s.cron now s.timezone)) [
      | inl bad ↦
          rw (bad, fire)
            (idle-Turn resolve_label tenant_id s r.queue.jobs (raised (of_schedule cron_error)) refl
              refl)
      | inr at ↦ elim (Option-cases (resolve_label s.pipeline)) [
        | inl lost ↦
            rw (at.1, lost, fire)
              ([], append-nil r.queue.jobs, ((λ f. absurd (cc)), λ n. refl), refl)
        | inr found ↦
            let request = request_of s at.0 found.0 tenant_id in
            let turn =
              settle-Turn lib resolve_label tenant_id now at.0 job_id found.0 s r
                (enqueue_scheduled job_id now request r.queue)
                (enqueue_scheduled-Settles job_id now request r.queue) in
            rw (at.1, found.1, fire) (rw (found.1) at turn)
      ]
    ]
