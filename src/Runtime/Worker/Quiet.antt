-- ===== src/Runtime/Worker/Quiet.antt =====
-- The calls of src/carve/runtime/worker.py that write no job.
use carve.Common.{String, Option, none, some, List, Bool-cases, inl, inr}
use carve.Common.Result.{Fallible-cases}
use carve.Queue.Table.{run_has_failed, run_has_succeeded, Job, Event}
use carve.Pipeline.FailureModes.{RunStatus, run_succeeded, run_failed as status_failed, run_partial}
use carve.Runtime.Store.{
  write_row, add_row, run_key, change_status, Store, Run, RunRowStatus, update_run_status,
  create_run, get_run,
}
use carve.Runtime.Call.{Site, Call, World, give, at_read_run, ◌>>=◌, transaction}
use carve.Runtime.Call.Ensures.{
  Ensures, returns, commits, aborts, Ensures-transaction, Ensures-bind, Ensures-attempt,
}
use carve.Runtime.Worker.{
  Context, emit_event, fire_on_run_failed, run_duration_ms, set_run, report_failed, report_result,
  duration_of, or_empty, error_of,
}

module _ (ctx : Context) (w : World) (Q : List Job → Type 0)
    (stable : (site : Site) (s : Store) → Q s.queue.jobs → Q (w.others site s).queue.jobs) where
  -- The call keeps the property of the jobs, whether it returns or raises.
  abbrev pub Keeps : {A : Type 0} → Call A → Type 0
  Keeps call =
      (s : Store)
      → Q s.queue.jobs
      → Ensures (λ _ s'. Q s'.queue.jobs) (λ s'. Q s'.queue.jobs) (call s)

  pub set_run-Keeps :
      (site : Site) (run_id : String) (status : RunRowStatus) (error : Option String)
      → Keeps (set_run ctx w site run_id status error)
  unfolding set_run update_run_status
  set_run-Keeps site run_id status error s q =
      let now = w.others site s in
      let changed = write_row run_key run_id (change_status status error (w.clock site)) now.runs in
      Ensures-transaction w site (update_run_status run_id status error (w.clock site)) s
        (stable site s q)
        (elim (Fallible-cases changed) [
          | inl (e, fails) ↦ rw (fails, update_run_status) (aborts (stable site s q))
          | inr (rows, works) ↦ rw (works, update_run_status) (commits (stable site s q))
        ])

  pub create-Keeps : (site : Site) (r : Run) → Keeps (transaction w site (create_run r))
  unfolding create_run
  create-Keeps site r s q =
      let now = w.others site s in
      Ensures-transaction w site (create_run r) s (stable site s q)
        (elim (Fallible-cases (add_row run_key r now.runs)) [
          | inl (e, fails) ↦ rw (fails, create_run) (aborts (stable site s q))
          | inr (rows, works) ↦ rw (works, create_run) (commits (stable site s q))
        ])

  pub emit_event-Keeps : (e : Event) → Keeps (emit_event ctx w e)
  unfolding emit_event
  emit_event-Keeps e s q =
      returns
        (elim (Bool-cases ctx.emitter) [ inl sink ↦ rw sink q | inr none_there ↦ rw none_there q ])

  pub fire-Keeps : (p r t e : String) → Keeps (fire_on_run_failed ctx w p r t e)
  unfolding fire_on_run_failed
  fire-Keeps p r t e s q = returns (elim (Bool-cases ctx.on_run_failed) [
    | inl hook ↦ rw hook q
    | inr none_there ↦ rw none_there q
  ])

  pub duration-Keeps : (run_id : String) → Keeps (run_duration_ms ctx w run_id)
  unfolding run_duration_ms get_run
  duration-Keeps run_id s q = elim (Bool-cases ctx.emitter) [
    | inr none_there ↦ rw none_there (returns q)
    | inl sink ↦ rw sink (
        Ensures-attempt (transaction w at_read_run (get_run run_id)) (λ e. give none)
          (λ r. give (duration_of ctx w r)) s
          (Ensures-transaction w at_read_run (get_run run_id) s (stable at_read_run s q)
            (commits (stable at_read_run s q)))
          (λ e s' k. returns k) (λ r s' k. returns k))
  ]

  pub report_failed-Keeps :
      (run_id : Option String) (j : Job) (error : String)
      → Keeps (report_failed ctx w run_id j error)
  unfolding report_failed
  report_failed-Keeps none j error s q = returns q
  report_failed-Keeps (some run_id) j error s q =
      Ensures-bind (run_duration_ms ctx w run_id) _ s (duration-Keeps run_id s q)
        (λ d s' k. emit_event-Keeps (run_has_failed run_id j.id j.pipeline d (some error)) s' k)

  reports_failure :
      (run_id : String) (j : Job) (error : Option String)
      → Keeps (
          run_duration_ms ctx w run_id >>= λ d.
          emit_event ctx w (run_has_failed run_id j.id j.pipeline d error) >>= λ _.
          fire_on_run_failed ctx w j.pipeline run_id j.target (or_empty ctx w error))
  reports_failure run_id j error s q =
      Ensures-bind (run_duration_ms ctx w run_id) _ s (duration-Keeps run_id s q) λ d s' k.
        Ensures-bind (emit_event ctx w (run_has_failed run_id j.id j.pipeline d error)) _ s'
          (emit_event-Keeps (run_has_failed run_id j.id j.pipeline d error) s' k)
          (λ n s'' k'. fire-Keeps j.pipeline run_id j.target (or_empty ctx w error) s'' k')

  pub report_result-Keeps :
      (status : RunStatus) (run_id : String) (j : Job) → Keeps (report_result ctx w status run_id j)
  unfolding report_result
  report_result-Keeps run_succeeded run_id j s q =
      Ensures-bind (run_duration_ms ctx w run_id) _ s (duration-Keeps run_id s q)
        (λ d s' k. emit_event-Keeps (run_has_succeeded run_id j.id j.pipeline d) s' k)
  report_result-Keeps status_failed run_id j s q =
      reports_failure run_id j (error_of status_failed) s q
  report_result-Keeps run_partial run_id j s q = reports_failure run_id j (error_of run_partial) s q
