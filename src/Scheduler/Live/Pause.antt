-- ===== src/Scheduler/Live/Pause.antt =====
-- Pausing and resuming a schedule (src/carve/core/state/schedules.py).
use carve.Common.{
  ℕ, String, true, false, none, some, ◌≡◌, refl, ap, ◌∙◌, sym, arith, string_eq, nat_eq, option_eq,
  Option-cases, inl, inr, is_some,
}
use carve.Common.Result.{ok}
use carve.Scheduler.Table.{Schedule, is_due}
use carve.Scheduler.Live.{
  Origin, Live, LiveEvent, schedule_paused, schedule_resumed, ChangeKind, paused, resumed, has_key,
  get_locked, pause_origin, LiveRequest, commit_change, mutate, apply_pause, apply_resume, pause,
  resume,
}
use carve.Scheduler.Live.Audit.{get_locked-key, put_locked-get}

mutate-gives :
    (r : LiveRequest) (kind : ChangeKind) (event : LiveEvent) (apply : Schedule → Schedule)
    (live : Live) (s : Schedule)
    → get_locked r.pipeline r.tenant_id live.schedules ≡ some s
    → has_key r.pipeline r.tenant_id (record (apply s) { updated_at = r.now }) ≡ true
    → pause_origin (record (apply s) { updated_at = r.now }) ≡ true
    → (next : Live) × (mutate r kind event apply live
        ≡ ok (record (apply s) { updated_at = r.now }, next))
      × (get_locked r.pipeline r.tenant_id next.schedules
          ≡ some (record (apply s) { updated_at = r.now }))
unfolding mutate commit_change
mutate-gives r kind event apply live s h k o =
    rw (h, mutate)
      (rw (o, commit_change)
        (
          _,
          refl,
          put_locked-get r.pipeline r.tenant_id (record (apply s) { updated_at = r.now }) s
              live.schedules k h,
        ))

no_origin : (s : Schedule) → s.paused ≡ false → pause_origin s ≡ true → s.paused_by ≡ none
unfolding pause_origin
no_origin s unpaused o = elim (Option-cases s.paused_by) [
  | inl e ↦ e
  | inr (by, e) ↦ absurd (cc (rw (e, is_some) at (rw (unpaused) at o)))
]

pub record Resumable (pipeline : String) (tenant_id : ℕ) (pausing resuming : Origin)
    (paused_at resumed_at : ℕ) (s : Schedule) (live : Live) : Type 0 where
  pub row : Schedule
  pub between : Live
  pub last : Live
  pub pauses :
      pause
        (record { pipeline = pipeline; tenant_id = tenant_id; origin = pausing; now = paused_at })
        live
      ≡ ok (row, between)
  pub never_due : (tenant now : ℕ) → is_due tenant now row ≡ false
  pub resumes :
      resume
        (record { pipeline = pipeline; tenant_id = tenant_id; origin = resuming; now = resumed_at })
        between
      ≡ ok (record s { pause_reason = none; updated_at = resumed_at }, last)
  pub stored :
      get_locked pipeline tenant_id last.schedules
      ≡ some (record s { pause_reason = none; updated_at = resumed_at })

-- A schedule that is not paused, in a row that satisfies the constraint on the origin of a pause, can
-- be paused and then resumed by anyone: both succeed, while it is paused it is due at no time, and
-- afterwards the stored row is the old one, its next firing time included, but for the time of the
-- change and a reason that is empty.
pub pause-resume :
    (pipeline : String) (tenant_id : ℕ) (pausing resuming : Origin) (paused_at resumed_at : ℕ)
    (s : Schedule) (live : Live)
    → get_locked pipeline tenant_id live.schedules ≡ some s
    → s.paused ≡ false
    → pause_origin s ≡ true
    → Resumable pipeline tenant_id pausing resuming paused_at resumed_at s live
unfolding pause resume pause_origin is_due string_eq option_eq
pause-resume pipeline tenant_id pausing resuming paused_at resumed_at s live h unpaused o =
    let r : LiveRequest = record {
      pipeline = pipeline;
      tenant_id = tenant_id;
      origin = pausing;
      now = paused_at;
    } in
    let r' : LiveRequest = record {
      pipeline = pipeline;
      tenant_id = tenant_id;
      origin = resuming;
      now = resumed_at;
    } in
    let k = get_locked-key pipeline tenant_id live.schedules s h in
    let (between, pauses, held) =
      mutate-gives r paused (schedule_paused pipeline pausing) (apply_pause pausing.reason) live s h
        k refl in
    let (last, resumes, stored) =
      mutate-gives r' resumed (schedule_resumed pipeline resuming) apply_resume between
        (record (apply_pause pausing.reason s) { updated_at = paused_at }) held k refl in
    let same : record (apply_resume s) { updated_at = resumed_at }
        ≡ record s { pause_reason = none; updated_at = resumed_at } =
      ap
        (λ p. record s {
          paused = p;
          paused_by = none;
          pause_reason = none;
          updated_at = resumed_at;
        })
        (sym unpaused)
      ∙ ap (λ b. record s { paused_by = b; pause_reason = none; updated_at = resumed_at })
          (sym (no_origin s unpaused o)) in
    record {
      row = record (apply_pause pausing.reason s) { updated_at = paused_at };
      between = between;
      last = last;
      pauses = pauses;
      never_due = λ tenant now. ground arith;
      resumes = resumes ∙ ap (λ row. ok (row, last)) same;
      stored = stored ∙ ap some same;
    }
