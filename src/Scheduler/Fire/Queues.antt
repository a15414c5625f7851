-- ===== src/Scheduler/Fire/Queues.antt =====
-- The jobs that one pass of src/carve/runtime/scheduler.py leaves in the queue.
use mathlib.Core.Path.{subst}
use carve.Common.{
  ℕ, ◌+◌, String, true, false, List, [], ◌∷◌, ◌++◌, ◌≡◌, refl, ap, ◌∙◌, arith, string_eq, nat_eq,
}
use carve.Queue.Table.{Job}
use carve.Scheduler.Cron.{Croniter}
use carve.Scheduler.Table.{Schedule, list_due}
use carve.Scheduler.Fire.{
  Runtime, Fired, fired, skipped, unresolved, raised, ResolveLabel, fire, Pass, finished, aborted,
  count_fired, fire_all, run_due_once,
}
use carve.Scheduler.Fire.Turns.{
  size, size-append, append_assoc, append-nil, occupied-more, is_raised, served, all_served, Turn,
  fire-Turn,
}

-- A pass that finished: what was queued stays, `n` jobs are new, and every due schedule is served.
abbrev Served : ResolveLabel → ℕ → List Schedule → List Job → List Job → Pass → Type 0
Served resolve_label tenant_id due before after (aborted e) = Unit
Served resolve_label tenant_id due before after (finished n) =
    (new : List Job) × (after ≡ before ++ new)
    × (size new ≡ n)
    × (all_served resolve_label tenant_id after due ≡ true)

size_of_none : (new : List Job) → new ≡ [] → size new ≡ 0
size_of_none [] e = refl
size_of_none (j ∷ new) e = absurd (cc)

module _ (resolve_label : ResolveLabel) (tenant_id : ℕ) (s : Schedule) (due : List Schedule)
    (before mid end : List Job) (o : Fired) where
  -- A turn that did not raise, and the rest of the pass.
  joined :
      (n : ℕ)
      → is_raised o ≡ false
      → (turn : Turn resolve_label tenant_id s before mid o)
      → Served resolve_label tenant_id due mid end (finished n)
      → Served resolve_label tenant_id (s ∷ due) before end (finished (size turn.0 + n))
  unfolding all_served
  joined n calm (new, e, counts, slot) (more, e', sizes, all) =
      let whole : end ≡ before ++ (new ++ more) =
        e' ∙ ap (λ x. x ++ more) e ∙ append_assoc before new more in
      let slot' : served resolve_label tenant_id end s ≡ true =
        rw e' (ground (arith, occupied-more s.pipeline tenant_id mid more, slot, calm)) in
      (new ++ more, whole, ground (arith, size-append new more), ground arith)

module _ (resolve_label : ResolveLabel) (tenant_id : ℕ) (s : Schedule) (due : List Schedule)
    (before : List Job) (mid : Runtime) where
  after-Turn :
      (o : Fired) (end : Runtime) (pass : Pass)
      → Turn resolve_label tenant_id s before mid.queue.jobs o
      → Served resolve_label tenant_id due mid.queue.jobs end.queue.jobs pass
      → let outcome : Runtime × Pass = elim o [
        | raised e ↦ (mid, aborted e)
        | fired ↦ (end, count_fired fired pass)
        | skipped ↦ (end, pass)
        | unresolved ↦ (end, pass)
      ] in
        Served resolve_label tenant_id (s ∷ due) before outcome.0.queue.jobs outcome.1
  unfolding count_fired
  after-Turn (raised e) end pass turn rest = tt
  after-Turn fired end (aborted e) turn rest = tt
  after-Turn skipped end (aborted e) turn rest = tt
  after-Turn unresolved end (aborted e) turn rest = tt
  after-Turn fired end (finished n) turn rest =
      let (new, e, sizes, all) =
        joined resolve_label tenant_id s due before mid.queue.jobs end.queue.jobs fired n refl turn
          rest in
      let one = turn.2.0 refl in (new, e, omega arith, all)
  after-Turn skipped end (finished n) turn rest =
      let (new, e, sizes, all) =
        joined resolve_label tenant_id s due before mid.queue.jobs end.queue.jobs skipped n refl
          turn rest in
      let none_new = size_of_none turn.0 (turn.2.1 refl) in (new, e, omega arith, all)
  after-Turn unresolved end (finished n) turn rest =
      let (new, e, sizes, all) =
        joined resolve_label tenant_id s due before mid.queue.jobs end.queue.jobs unresolved n refl
          turn rest in
      let none_new = size_of_none turn.0 (turn.2.1 refl) in (new, e, omega arith, all)

module _ (lib : Croniter) (resolve_label : ResolveLabel) (tenant_id now : ℕ)
    (job_id_of : String → String) where
  fire_all-Served :
      (due : List Schedule) (r : Runtime)
      → let outcome = fire_all lib resolve_label tenant_id now job_id_of due r in
        Served resolve_label tenant_id due r.queue.jobs outcome.0.queue.jobs outcome.1
  unfolding fire_all all_served
  fire_all-Served [] r = ([], append-nil r.queue.jobs, refl, refl)
  fire_all-Served (s ∷ due) r =
      let turn = fire lib resolve_label tenant_id now (job_id_of s.id) s r in
      let rest = fire_all lib resolve_label tenant_id now job_id_of due turn.0 in
      after-Turn resolve_label tenant_id s due r.queue.jobs turn.0 turn.1 rest.0 rest.1
        (fire-Turn lib resolve_label tenant_id now (job_id_of s.id) s r)
        (fire_all-Served due turn.0)

  -- A pass that finishes with `n` leaves every row of the queue as it was and adds `n` jobs behind
  -- them, and then the pipeline of every schedule that was due has a queued job, unless its label did
  -- not resolve.
  pub run_due_once-queues :
      (r r' : Runtime) (n : ℕ)
      → run_due_once lib resolve_label tenant_id now job_id_of r ≡ (r', finished n)
      → (new : List Job) × (r'.queue.jobs ≡ r.queue.jobs ++ new)
        × (size new ≡ n)
        × (all_served resolve_label tenant_id r'.queue.jobs (list_due tenant_id now r.schedules)
            ≡ true)
  unfolding run_due_once
  run_due_once-queues r r' n e =
      let due = list_due tenant_id now r.schedules in
      subst (λ o. Served resolve_label tenant_id due r.queue.jobs o.0.queue.jobs o.1) e
        (fire_all-Served due r)
