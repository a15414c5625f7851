-- ===== src/Pipeline/Execute/Status.antt =====
-- The status of a run and its failed and skipped steps
-- (src/carve/runtime/failure_modes.py, execute_pipeline.py).
use carve.Common.{
  ℕ, zero, suc, String, Bool, true, false, Option, none, some, List, [], ◌∷◌, ◌++◌, not, ◌&&◌,
  if◌then◌else◌, ◌≡◌, ◌↔◌, refl, sym, ap, arith, inl, inr,
}
use mathlib.Core.Path.{subst}
use mathlib.Core.Option.{some-injective}
use carve.Common.Dict.{Dict}
use carve.Common.Slices.{take}
use carve.Pipeline.Step.{
  PipelineStep, StepStatus, succeeded, failed, skipped, StepResult, Mode, fail, warn, continue,
  retry, skip_downstream,
}
use carve.Pipeline.Dag.{size}
use carve.Pipeline.Graph.{PipelineDag, ready_steps}
use carve.Pipeline.FailureModes.{
  RunState, apply_failure_mode, apply_status, fail_in_mode, tolerate, is_empty, derive_run_status,
  run_succeeded,
}
use carve.Pipeline.Execute.{
  Env, Walk, initial_walk, record_result, run_wave, walk_loop, run_step_with_retry,
  execute_pipeline, RunResult, from_run_state, result_of, Ended, out_of_fuel, hook_raised, ended,
}
use carve.Pipeline.Execute.Retry.{step_returns}

-- A step has failed just when the run is halted or a failure was tolerated.
abbrev pub Accounts : RunState → Type 0
Accounts s = is_empty s.failed_ids ≡ (not s.halted && is_empty s.tolerated_failures)

is_empty-snoc : (xs : List String) (x : String) → is_empty (xs ++ (x ∷ [])) ≡ false
is_empty-snoc [] x = refl
is_empty-snoc (y ∷ xs) x = refl

never : (b : Bool) (xs : List String) (x : String) → false ≡ (b && is_empty (xs ++ (x ∷ [])))
never true xs x = sym (is_empty-snoc xs x)
never false xs x = refl

fail_in_mode-Accounts :
    (mode : Mode) (id : String) (message : Option String) (dag : PipelineDag) (s : RunState)
    → Accounts (fail_in_mode mode id message dag s)
unfolding fail_in_mode tolerate
fail_in_mode-Accounts fail id message dag s = refl
fail_in_mode-Accounts retry id message dag s = refl
fail_in_mode-Accounts warn id message dag s = never (not s.halted) s.tolerated_failures id
fail_in_mode-Accounts continue id message dag s = never (not s.halted) s.tolerated_failures id
fail_in_mode-Accounts skip_downstream id message dag s =
    never (not s.halted) s.tolerated_failures id

apply_status-Accounts :
    (status : StepStatus) (step : PipelineStep) (result : StepResult) (dag : PipelineDag)
    (s : RunState)
    → Accounts s
    → Accounts (apply_status status step result dag s)
unfolding apply_status
apply_status-Accounts succeeded step result dag s a = a
apply_status-Accounts skipped step result dag s a = a
apply_status-Accounts failed step result dag s a =
    fail_in_mode-Accounts step.failure_mode.mode step.id result.error_message dag s

run_wave-Accounts :
    (env : Env) (dag : PipelineDag) (wave : List PipelineStep) (before : Dict StepResult)
    (w end : Walk)
    → Accounts w.state
    → run_wave env dag wave before w ≡ some end
    → Accounts end.state
unfolding run_wave record_result apply_failure_mode
run_wave-Accounts env dag [] before w end a e =
    subst (λ x. Accounts x.state) (some-injective w end e) a
run_wave-Accounts env dag (step ∷ wave) before w end a e = elim (step_returns env step before) [
  | inr (m, bad, hook) ↦ absurd (cc (rw (bad, run_wave) at e))
  | inl (result, fine) ↦
      run_wave-Accounts env dag wave before
        (record_result dag step (result, (run_step_with_retry env step before).1) w) end
        (apply_status-Accounts result.status step result dag w.state a) (rw (fine, run_wave) at e)
]

ended-injective {ℓ} : {A : Type 0} (P : A → Type ℓ) (a b : A) → ended a ≡ ended b → P a → P b
ended-injective P a b e p =
    subst P (ap (λ o. elim o [ out_of_fuel ↦ a | hook_raised ↦ a | ended x ↦ x ]) e) p

wave_ended-Accounts :
    (ran : Option Walk) (go : Walk → Ended Walk) (end : Walk)
    → ((after : Walk) → ran ≡ some after → go after ≡ ended end → Accounts end.state)
    → elim ran [ none ↦ hook_raised | some after ↦ go after ] ≡ ended end
    → Accounts end.state
wave_ended-Accounts none go end later e = absurd (cc)
wave_ended-Accounts (some after) go end later e = later after refl e

left_at :
    (halted : Bool) (ready : List PipelineStep) (w end : Walk) (next : Ended Walk)
    → Accounts w.state
    → (next ≡ ended end → Accounts end.state)
    → (if halted then ended w else elim ready [ [] ↦ ended w | ◌∷◌ s rest ↦ next ]) ≡ ended end
    → Accounts end.state
left_at true ready w end next a later e = ended-injective (λ x. Accounts x.state) w end e a
left_at false [] w end next a later e = ended-injective (λ x. Accounts x.state) w end e a
left_at false (s ∷ ready) w end next a later e = later e

walk_loop-Accounts :
    (fuel : ℕ) (env : Env) (dag : PipelineDag) (slots : ℕ) (w end : Walk)
    → Accounts w.state
    → walk_loop fuel env dag slots w ≡ ended end
    → Accounts end.state
unfolding walk_loop
walk_loop-Accounts zero env dag slots w end a e = absurd (cc)
walk_loop-Accounts (suc fuel) env dag slots w end a e =
    let ready = ready_steps dag w.state.completed_ids w.state.failed_ids w.state.skipped_ids in
    let ran = run_wave env dag (take slots ready) w.step_results w in
    left_at w.state.halted ready w end _ a
      (wave_ended-Accounts ran (walk_loop fuel env dag slots) end (λ after r.
        walk_loop-Accounts fuel env dag slots after end
          (run_wave-Accounts env dag (take slots ready) w.step_results w after a r)))
      e

derive_run_status-succeeded :
    (s : RunState)
    → Accounts s
    → (derive_run_status s ≡ run_succeeded) ↔ ((s.failed_ids ≡ []) × (s.skipped_ids ≡ []))
unfolding derive_run_status
derive_run_status-succeeded s a = ground arith

abbrev StatusIsRight : RunResult → Type 0
StatusIsRight r = (r.status ≡ run_succeeded) ↔ ((r.failed_steps ≡ []) × (r.skipped_steps ≡ []))

result_of-StatusIsRight :
    (o : Ended Walk) (r : RunResult)
    → ((end : Walk) → o ≡ ended end → Accounts end.state)
    → result_of o ≡ ended r
    → StatusIsRight r
unfolding result_of from_run_state
result_of-StatusIsRight out_of_fuel r a e = absurd (cc)
result_of-StatusIsRight hook_raised r a e = absurd (cc)
result_of-StatusIsRight (ended w) r a e =
    ended-injective StatusIsRight (from_run_state w.state w.outputs) r e
      (derive_run_status-succeeded w.state (a w refl))

-- A run that returns reports `succeeded` just when no step failed and none was skipped.
pub execute_pipeline-succeeded :
    (env : Env) (dag : PipelineDag) (slots : ℕ) (r : RunResult)
    → execute_pipeline env dag slots ≡ ended r
    → (r.status ≡ run_succeeded) ↔ ((r.failed_steps ≡ []) × (r.skipped_steps ≡ []))
unfolding execute_pipeline
execute_pipeline-succeeded env dag slots r e =
    let fuel = suc (size dag.topological_order) in
    result_of-StatusIsRight (walk_loop fuel env dag slots initial_walk) r
      (λ end. walk_loop-Accounts fuel env dag slots initial_walk end refl) e
