-- ===== src/Pipeline/Execute/Retry.antt =====
-- The attempts of one step (src/carve/runtime/execute_pipeline.py).
use carve.Common.{
  ℕ, zero, suc, ◌+◌, ◌-◌, ◌≤◌, ◌<◌, true, false, ◌≡◌, refl, arith, Bool-cases, Option-cases, some,
  String, ◌∙◌, sym, ◌⊎◌, inl, inr,
}
use carve.Common.Dict.{Dict}
use carve.Pipeline.Step.{FailureMode, PipelineStep, StepResult}
use carve.Pipeline.Execute.{
  Outcome, returned, raised, Env, StepEvent, step_started, step_finished, AttemptRan, run_executor,
  launch_step, leaves_loop, attempt_loop, attempts_of, run_step_with_retry,
}

abbrev Launch : Type 0
Launch = ℕ → AttemptRan

le_cases : (a b : ℕ) → a ≤ b → (b ≡ a) ⊎ (suc a ≤ b)
le_cases a b h = omega arith

-- All attempts from `first` to before `last` returned and did not succeed.
abbrev pub AllFail : Launch → ℕ → ℕ → Type 0
AllFail launch first last = (k : ℕ) → first ≤ k → k < last → leaves_loop (launch k).0 ≡ false

fails :
    (launch : Launch) (first last : ℕ)
    → leaves_loop (launch first).0 ≡ false
    → AllFail launch (suc first) last
    → AllFail launch first last
fails launch first last now later k lo hi = elim (le_cases first k lo) [
  | inl same ↦ rw (same) (now)
  | inr more ↦ later k more hi
]

attempt_loop-last :
    (launch : Launch) (fm : FailureMode) (left attempt : ℕ)
    → (n : ℕ) × (attempt ≤ n)
      × (n ≤ attempt + left)
      × AllFail launch attempt n
      × ((n ≡ attempt + left) ⊎ (leaves_loop (launch n).0 ≡ true))
      × ((attempt_loop launch fm left attempt).0 ≡ (launch n).0)
unfolding attempt_loop
attempt_loop-last launch fm zero attempt =
    (attempt, omega arith, omega arith, (λ k a b. ground arith), inl (omega arith), refl)
attempt_loop-last launch fm (suc left) attempt =
    elim (Bool-cases (leaves_loop (launch attempt).0)) [
      | inl won ↦
          (attempt, omega arith, omega arith, (λ k a b. ground arith), inr won, rw (won) (refl))
      | inr lost ↦
          let (n, lo, hi, before, end, same) = attempt_loop-last launch fm left (suc attempt) in
          (
            n,
            omega arith,
            omega arith,
            fails launch attempt n lost before,
            ground arith,
            rw (lost) (same),
          )
    ]

attempts_of-positive : (fm : FailureMode) → 1 ≤ attempts_of fm
unfolding attempts_of
attempts_of-positive fm = omega arith

pub run_step_with_retry-last :
    (env : Env) (step : PipelineStep) (results : Dict StepResult)
    → let launch = launch_step env step results in
      (n : ℕ) × (1 ≤ n)
      × (n ≤ attempts_of step.failure_mode)
      × AllFail launch 1 n
      × ((n ≡ attempts_of step.failure_mode) ⊎ (leaves_loop (launch n).0 ≡ true))
      × ((run_step_with_retry env step results).0 ≡ (launch n).0)
unfolding run_step_with_retry
run_step_with_retry-last env step results =
    let positive = attempts_of-positive step.failure_mode in
    let (n, lo, hi, before, end, same) =
      attempt_loop-last (launch_step env step results) step.failure_mode
        (attempts_of step.failure_mode - 1) 1 in
    (n, lo, omega arith, before, ground arith, same)

Outcome-cases {ℓ} :
    {A : Type ℓ} (o : Outcome A) → ((a : A) × (o ≡ returned a)) ⊎ ((e : String) × (o ≡ raised e))
Outcome-cases (returned a) = inl (a, refl)
Outcome-cases (raised e) = inr (e, refl)

-- A hook of the sink raises.
abbrev pub HookRaises : Env → Type 0
HookRaises env = (call : StepEvent) × (e : String) × (env.sink call ≡ some e)

launch_step-raises :
    (env : Env) (step : PipelineStep) (results : Dict StepResult) (attempt : ℕ) (e : String)
    → (launch_step env step results attempt).0 ≡ raised e
    → HookRaises env
unfolding launch_step
launch_step-raises env step results attempt e h = elim (Outcome-cases (env.render results step)) [
  | inr (x, bad) ↦ absurd (cc (rw (bad, launch_step) at h))
  | inl (vars, rendered) ↦
      let ready = record step { jinja_vars = vars } in
      let result = run_executor env ready attempt in
      elim (Option-cases (env.sink (step_started ready attempt))) [
        | inr (x, one) ↦ (step_started ready attempt, x, one)
        | inl quiet ↦ elim (Option-cases (env.sink (step_finished ready result attempt))) [
          | inr (x, two) ↦ (step_finished ready result attempt, x, two)
          | inl calm ↦ absurd (cc (rw (rendered, quiet, calm, launch_step) at h))
        ]
      ]
]

-- A step returns its result, or a hook of the sink raises.
pub step_returns :
    (env : Env) (step : PipelineStep) (results : Dict StepResult)
    → ((result : StepResult) × ((run_step_with_retry env step results).0 ≡ returned result))
      ⊎ ((e : String) × ((run_step_with_retry env step results).0 ≡ raised e) × HookRaises env)
step_returns env step results = elim (Outcome-cases (run_step_with_retry env step results).0) [
  | inl fine ↦ inl fine
  | inr (e, bad) ↦
      let (n, lo, hi, before, last, same) = run_step_with_retry-last env step results in
      inr (e, bad, launch_step-raises env step results n e (sym same ∙ bad))
]
