-- ===== src/Runtime/Sink/Attempts.antt =====
-- What the hooks of one attempt leave (src/carve/runtime/persisting_step_sink.py).
use carve.Common.{
  ℕ, String, Bool, true, false, none, some, List, [], ◌∷◌, ◌++◌, string_eq, nat_eq, if◌then◌else◌,
  ◌≡◌, refl, arith,
}
use carve.Pipeline.Step.{PipelineStep}
use carve.Queue.Table.{ok, ◌>>=◌, step_has_started}
use carve.Queue.Single.{jobs-emit}
use carve.Runtime.Store.{Store, StepRun, step_run_key, find_row, add_row, write_row}
use carve.Runtime.Store.Rows.{find_row-append, change_row-append}
use carve.Runtime.Sink.{
  Sink, Ending, new_step_run, end_step_run, create_step_run, finish_step_run, put_open, pop_open,
  same_key, step_started, step_finished, row_to_end, emit_to, end_event,
}

-- The attempt has no open row.
abbrev pub is_shut : String × ℕ → List ((String × ℕ) × String) → Bool
is_shut key [] = true
is_shut key ((k, id) ∷ rows) = if same_key key k then false else is_shut key rows

same_key_self : (a : String) (n : ℕ) → same_key (a, n) (a, n) ≡ true
same_key_self a n = ground arith

pop_open-put_open :
    (a : String) (n : ℕ) (id : String) (rows : List ((String × ℕ) × String))
    → is_shut (a, n) rows ≡ true
    → pop_open (a, n) (put_open (a, n) id rows) ≡ (some id, rows)
unfolding pop_open put_open
pop_open-put_open a n id [] h = ground arith
pop_open-put_open a n id (((b, m), old) ∷ rows) h = ground (arith, pop_open-put_open a n id rows)

module _ (fresh other : String) (now later attempt : ℕ) (step : PipelineStep) (e : Ending)
    (sink : Sink) (s : Store) where
  abbrev row : StepRun
  row = new_step_run fresh sink.run_id step.id step.type attempt none now

  abbrev pub finished_row : StepRun
  finished_row = end_step_run e later row

  abbrev opened : Sink
  opened = record sink { open_rows = put_open (step.id, attempt) fresh sink.open_rows }

  abbrev begun_store : Store
  begun_store =
      emit_to (step_has_started fresh sink.run_id step.type)
        (record s { step_runs = s.step_runs ++ (row ∷ []) })

  abbrev ended_store : Store
  ended_store =
      emit_to (end_event fresh sink.run_id step.type e)
        (record begun_store { step_runs = s.step_runs ++ (finished_row ∷ []) })

  added :
      find_row step_run_key fresh s.step_runs ≡ none
      → add_row step_run_key row s.step_runs ≡ ok (s.step_runs ++ (row ∷ []))
  unfolding add_row
  added new = rw (new, add_row)

  started :
      find_row step_run_key fresh s.step_runs ≡ none
      → step_started fresh now step attempt sink s ≡ ok (opened, begun_store)
  unfolding step_started create_step_run
  started new = rw (added new)

  written :
      find_row step_run_key fresh s.step_runs ≡ none
      → write_row step_run_key fresh (end_step_run e later) (s.step_runs ++ (row ∷ []))
        ≡ ok (s.step_runs ++ (finished_row ∷ []))
  unfolding write_row
  written new = rw (
    find_row-append step_run_key fresh row s.step_runs new refl,
    write_row,
    change_row-append step_run_key fresh (end_step_run e later) row s.step_runs new refl,
  )

  finished :
      find_row step_run_key fresh s.step_runs ≡ none
      → is_shut (step.id, attempt) sink.open_rows ≡ true
      → step_finished other later step e attempt opened begun_store ≡ ok (sink, ended_store)
  unfolding step_finished row_to_end finish_step_run
  finished new shut =
      rw (pop_open-put_open step.id attempt fresh sink.open_rows shut) (rw (written new))

  -- With a fresh id, an attempt that is started and then finished leaves the sink as it was and one
  -- row more, which names the run, the step and the attempt and carries the result; the jobs are
  -- untouched.
  pub started-finished :
      find_row step_run_key fresh s.step_runs ≡ none
      → is_shut (step.id, attempt) sink.open_rows ≡ true
      → (s' : Store) × ((step_started fresh now step attempt sink s >>= λ r.
            step_finished other later step e attempt r.0 r.1)
          ≡ ok (sink, s'))
        × (s'.step_runs ≡ s.step_runs ++ (finished_row ∷ []))
        × (s'.queue.jobs ≡ s.queue.jobs)
  started-finished new shut =
      (ended_store, rw (started new) (finished new shut), refl, rw (jobs-emit, jobs-emit))
