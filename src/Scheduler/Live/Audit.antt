-- ===== src/Scheduler/Live/Audit.antt =====
-- The trail of the changes of src/carve/core/state/schedules.py.
use mathlib.Core.Option.{some-injective}
use carve.Common.{
  ℕ, String, true, false, Option, none, some, List, [], ◌∷◌, ◌++◌, ◌≡◌, refl, ap, ◌∙◌, sym, arith,
  ◌&&◌, ◌==◌, string_eq, nat_eq, Bool-cases, Option-cases, inl, inr, is_some,
}
use carve.Common.Result.{Fallible, ok}
use carve.Scheduler.Cron.{Croniter, next_tick_after}
use carve.Scheduler.Table.{Schedule, get_schedule}
use carve.Scheduler.Live.{
  snapshot_row, snapshot_of, schedule_seeded, ChangeKind, cron_set, ScheduleChange, LiveEvent, Live,
  LiveError, has_key, get_locked, put_locked, pause_origin, LiveRequest, commit_change, mutate,
  apply_pause, apply_resume, pause, resume, upsert, or_old, changed, set_cron_row, set_cron,
  seed_kind, seeded_row, seed,
}

-- A successful change: the row under the key is the returned one, the trail has one more entry, of
-- the row before and after, and no row under another key has changed.
pub record Audited (r : LiveRequest) (live : Live) (row : Schedule) (next : Live) : Type 0 where
  pub stored : get_locked r.pipeline r.tenant_id next.schedules ≡ some row
  pub entry : ScheduleChange
  pub appended : next.changes ≡ live.changes ++ (entry ∷ [])
  pub of_key : (entry.pipeline ≡ r.pipeline) × (entry.tenant_id ≡ r.tenant_id)
  pub of_before : entry.before ≡ snapshot_of (get_locked r.pipeline r.tenant_id live.schedules)
  pub of_after : entry.after ≡ snapshot_row row
  pub others :
      (pipeline : String) (tenant_id : ℕ)
      → (pipeline == r.pipeline && tenant_id == r.tenant_id) ≡ false
      → get_locked pipeline tenant_id next.schedules ≡ get_locked pipeline tenant_id live.schedules

module _ (pipeline : String) (tenant_id : ℕ) where
  pub get_locked-key :
      (schedules : List Schedule) (s : Schedule)
      → get_locked pipeline tenant_id schedules ≡ some s
      → has_key pipeline tenant_id s ≡ true
  unfolding get_locked
  get_locked-key [] s h = absurd (cc)
  get_locked-key (t ∷ schedules) s h = elim (Bool-cases (has_key pipeline tenant_id t)) [
    | inl e ↦
        let same : some t ≡ some s = rw (e, get_locked) at h in rw (sym (some-injective t s same)) e
    | inr e ↦ get_locked-key schedules s (rw (e, get_locked) at h)
  ]

  pub put_locked-get :
      (row s : Schedule) (schedules : List Schedule)
      → has_key pipeline tenant_id row ≡ true
      → get_locked pipeline tenant_id schedules ≡ some s
      → get_locked pipeline tenant_id (put_locked pipeline tenant_id row schedules) ≡ some row
  unfolding get_locked put_locked
  put_locked-get row s [] k h = absurd (cc)
  put_locked-get row s (t ∷ schedules) k h = elim (Bool-cases (has_key pipeline tenant_id t)) [
    | inl e ↦ rw (e, put_locked) (rw (k, get_locked) refl)
    | inr e ↦
        rw (e, put_locked)
          (rw (e, get_locked) (put_locked-get row s schedules k (rw (e, get_locked) at h)))
  ]

  append-get :
      (row : Schedule) (schedules : List Schedule)
      → has_key pipeline tenant_id row ≡ true
      → get_locked pipeline tenant_id schedules ≡ none
      → get_locked pipeline tenant_id (schedules ++ (row ∷ [])) ≡ some row
  unfolding get_locked
  append-get row [] k h = rw (k, get_locked) refl
  append-get row (t ∷ schedules) k h = elim (Bool-cases (has_key pipeline tenant_id t)) [
    | inl e ↦ absurd (cc (rw (e, get_locked) at h))
    | inr e ↦ rw (e, get_locked) (append-get row schedules k (rw (e, get_locked) at h))
  ]

  module _ (other : String) (tenant : ℕ)
      (differ : (other == pipeline && tenant == tenant_id) ≡ false) where
    other_key :
        (s : Schedule) → has_key pipeline tenant_id s ≡ true → has_key other tenant s ≡ false
    other_key s h = ground (arith, differ, h)

    put_locked-other :
        (row : Schedule) (schedules : List Schedule)
        → has_key pipeline tenant_id row ≡ true
        → get_locked other tenant (put_locked pipeline tenant_id row schedules)
          ≡ get_locked other tenant schedules
    unfolding get_locked put_locked
    put_locked-other row [] k = refl
    put_locked-other row (t ∷ schedules) k = elim (Bool-cases (has_key pipeline tenant_id t)) [
      | inl e ↦
          rw (e, put_locked)
            (rw (other_key row k, get_locked) (rw (other_key t e, get_locked) refl))
      | inr e ↦
          rw (e, put_locked)
            (elim (Bool-cases (has_key other tenant t)) [
              | inl f ↦ rw (f, get_locked) refl
              | inr f ↦ rw (f, get_locked) (put_locked-other row schedules k)
            ])
    ]

    append-other :
        (row : Schedule) (schedules : List Schedule)
        → has_key pipeline tenant_id row ≡ true
        → get_locked other tenant (schedules ++ (row ∷ [])) ≡ get_locked other tenant schedules
    unfolding get_locked
    append-other row [] k = rw (other_key row k, get_locked) refl
    append-other row (t ∷ schedules) k = elim (Bool-cases (has_key other tenant t)) [
      | inl f ↦ rw (f, get_locked) refl
      | inr f ↦ rw (f, get_locked) (append-other row schedules k)
    ]

record Stored (r : LiveRequest) (before : Option Schedule) (row : Schedule)
    (schedules : List Schedule) (live : Live) (given : Schedule) (next : Live) : Type 0 where
  same : given ≡ row
  rows : next.schedules ≡ schedules
  entry : ScheduleChange
  appended : next.changes ≡ live.changes ++ (entry ∷ [])
  of_key : (entry.pipeline ≡ r.pipeline) × (entry.tenant_id ≡ r.tenant_id)
  of_before : entry.before ≡ snapshot_of before
  of_after : entry.after ≡ snapshot_row row

commit_change-Stored :
    (r : LiveRequest) (kind : ChangeKind) (before : Option Schedule) (row : Schedule)
    (schedules : List Schedule) (event : LiveEvent) (live next : Live) (given : Schedule)
    → commit_change r kind before row schedules event live ≡ ok (given, next)
    → Stored r before row schedules live given next
unfolding commit_change
commit_change-Stored r kind before row schedules event live next given h =
    elim (Bool-cases (pause_origin row)) [
      | inl e ↦
          let h' = rw (e, commit_change) at h in
          record {
            same = cc (h');
            rows = cc (h');
            entry = record {
              pipeline = r.pipeline;
              change_kind = kind;
              before = snapshot_of before;
              after = snapshot_row row;
              origin = r.origin;
              tenant_id = r.tenant_id;
              changed_at = r.now;
            };
            appended = cc (h');
            of_key = (refl, refl);
            of_before = refl;
            of_after = refl;
          }
      | inr e ↦ absurd (cc (rw (e, commit_change) at h))
    ]

upsert-Audited :
    (id : String) (r : LiveRequest) (kind : ChangeKind) (before : Option Schedule) (row : Schedule)
    (event : LiveEvent) (live next : Live) (given : Schedule)
    → get_locked r.pipeline r.tenant_id live.schedules ≡ before
    → has_key r.pipeline r.tenant_id row ≡ true
    → upsert id r kind before row event live ≡ ok (given, next)
    → Audited r live given next
unfolding upsert
upsert-Audited id r kind none row event live next given b k h =
    elim (Bool-cases (is_some (get_schedule id live.schedules))) [
      | inl e ↦ absurd (cc (rw (e, upsert) at h))
      | inr e ↦
          let c =
            commit_change-Stored r kind none row _ event live next given (rw (e, upsert) at h) in
          record {
            stored =
                rw c.rows
                  (append-get r.pipeline r.tenant_id row live.schedules k b ∙ ap some (sym c.same));
            entry = c.entry;
            appended = c.appended;
            of_key = c.of_key;
            of_before = c.of_before ∙ ap snapshot_of (sym b);
            of_after = c.of_after ∙ ap snapshot_row (sym c.same);
            others = λ other tenant differ.
                rw c.rows
                  (append-other r.pipeline r.tenant_id other tenant differ row live.schedules k);
          }
    ]
upsert-Audited id r kind (some s) row event live next given b k h =
    let c = commit_change-Stored r kind (some s) row _ event live next given h in
    record {
      stored =
          rw c.rows
            (put_locked-get r.pipeline r.tenant_id row s live.schedules k b ∙ ap some (sym c.same));
      entry = c.entry;
      appended = c.appended;
      of_key = c.of_key;
      of_before = c.of_before ∙ ap snapshot_of (sym b);
      of_after = c.of_after ∙ ap snapshot_row (sym c.same);
      others = λ other tenant differ.
          rw c.rows
            (put_locked-other r.pipeline r.tenant_id other tenant differ row live.schedules k);
    }

-- The four methods.
pub data Change : Type 0 where
  pausing resuming : Change
  setting : String → String → Option String → Option String → Change
  seeding : String → String → String → String → Change

abbrev pub run_change :
    Croniter → Change → LiveRequest → Live → Fallible LiveError (Schedule × Live)
run_change lib pausing r live = pause r live
run_change lib resuming r live = resume r live
run_change lib (setting id cron target timezone) r live =
    set_cron lib id r cron target timezone live
run_change lib (seeding id cron target timezone) r live = seed lib id r cron target timezone live

mutate-Audited :
    (r : LiveRequest) (kind : ChangeKind) (event : LiveEvent) (apply : Schedule → Schedule)
    (live next : Live) (given : Schedule)
    → ((s : Schedule) → (apply s).pipeline ≡ s.pipeline)
    → ((s : Schedule) → (apply s).tenant_id ≡ s.tenant_id)
    → mutate r kind event apply live ≡ ok (given, next)
    → Audited r live given next
unfolding mutate
mutate-Audited r kind event apply live next given same_pipeline same_tenant h =
    elim (Option-cases (get_locked r.pipeline r.tenant_id live.schedules)) [
      | inl e ↦ absurd (cc (rw (e, mutate) at h))
      | inr (s, e) ↦
          upsert-Audited "" r kind (some s) (record (apply s) { updated_at = r.now }) event live
            next given e
            (rw (same_pipeline s)
              (rw (same_tenant s) (get_locked-key r.pipeline r.tenant_id live.schedules s e)))
            (unfold upsert in rw (e, mutate) at h)
    ]

own_key : (p : String) (t : ℕ) → (p == p && t == t) ≡ true
own_key p t = ground arith

module _ (lib : Croniter) where
  set_cron_row-key :
      (id : String) (r : LiveRequest) (cron : String) (target timezone : Option String)
      (before : Option Schedule) (row : Schedule)
      → ((s : Schedule) → before ≡ some s → has_key r.pipeline r.tenant_id s ≡ true)
      → set_cron_row lib id r cron target timezone before ≡ some row
      → has_key r.pipeline r.tenant_id row ≡ true
  unfolding set_cron_row
  set_cron_row-key id r cron target timezone none row k h =
      elim (Option-cases (next_tick_after lib cron r.now (or_old timezone "UTC"))) [
        | inl e ↦ absurd (cc (rw (e, set_cron_row) at h))
        | inr (tick, e) ↦
            rw (sym (some-injective _ row (rw (e, set_cron_row) at h)))
              (own_key r.pipeline r.tenant_id)
      ]
  set_cron_row-key id r cron target timezone (some s) row k h =
      elim (Option-cases (next_tick_after lib cron r.now (or_old timezone s.timezone))) [
        | inl e ↦ absurd (cc (rw (e, set_cron_row) at h))
        | inr (tick, e) ↦ rw (sym (some-injective _ row (rw (e, set_cron_row) at h))) (k s refl)
      ]

  set_cron-Audited :
      (id : String) (r : LiveRequest) (cron : String) (target timezone : Option String)
      (live next : Live) (given : Schedule)
      → set_cron lib id r cron target timezone live ≡ ok (given, next)
      → Audited r live given next
  unfolding set_cron
  set_cron-Audited id r cron target timezone live next given h =
      let before = get_locked r.pipeline r.tenant_id live.schedules in
      elim (Option-cases (set_cron_row lib id r cron target timezone before)) [
        | inl e ↦ absurd (cc (rw (e, set_cron) at h))
        | inr (row, e) ↦
            upsert-Audited id r cron_set before row (changed lib r before row) live next given refl
              (set_cron_row-key id r cron target timezone before row
                (get_locked-key r.pipeline r.tenant_id live.schedules) e)
              (rw (e, set_cron) at h)
      ]

  seeded_row-key :
      (id : String) (r : LiveRequest) (cron target timezone : String) (tick : ℕ)
      (before : Option Schedule)
      → ((s : Schedule) → before ≡ some s → has_key r.pipeline r.tenant_id s ≡ true)
      → has_key r.pipeline r.tenant_id (seeded_row lib id r cron target timezone tick before) ≡ true
  seeded_row-key id r cron target timezone tick none k = own_key r.pipeline r.tenant_id
  seeded_row-key id r cron target timezone tick (some s) k = k s refl

  seed-Audited :
      (id : String) (r : LiveRequest) (cron target timezone : String) (live next : Live)
      (given : Schedule)
      → seed lib id r cron target timezone live ≡ ok (given, next)
      → Audited r live given next
  unfolding seed
  seed-Audited id r cron target timezone live next given h =
      let before = get_locked r.pipeline r.tenant_id live.schedules in
      elim (Option-cases (next_tick_after lib cron r.now timezone)) [
        | inl e ↦ absurd (cc (rw (e, seed) at h))
        | inr (tick, e) ↦
            let by_seed : LiveRequest = record r {
              origin = record { source = "seed"; reason = none; actor_token_id = none };
            } in
            let a =
              upsert-Audited id by_seed (seed_kind lib before) before
                (seeded_row lib id r cron target timezone tick before)
                (schedule_seeded r.pipeline cron) live next given refl
                (seeded_row-key id r cron target timezone tick before
                  (get_locked-key r.pipeline r.tenant_id live.schedules))
                (rw (e, seed) at h) in
            record {
              stored = a.stored;
              entry = a.entry;
              appended = a.appended;
              of_key = a.of_key;
              of_before = a.of_before;
              of_after = a.of_after;
              others = a.others;
            }
      ]

  -- Every successful `pause`, `resume`, `set_cron` and `seed` stores the row that it returns under its
  -- pipeline and tenant, appends one entry to the trail with the snapshots of that row before and
  -- after, none before a creation, and changes no row under another key.
  pub run_change-Audited :
      (c : Change) (r : LiveRequest) (live next : Live) (given : Schedule)
      → run_change lib c r live ≡ ok (given, next)
      → Audited r live given next
  unfolding pause resume
  run_change-Audited pausing r live next given h =
      mutate-Audited r _ _ (apply_pause r.origin.reason) live next given (λ s. refl) (λ s. refl) h
  run_change-Audited resuming r live next given h =
      mutate-Audited r _ _ apply_resume live next given (λ s. refl) (λ s. refl) h
  run_change-Audited (setting id cron target timezone) r live next given h =
      set_cron-Audited id r cron target timezone live next given h
  run_change-Audited (seeding id cron target timezone) r live next given h =
      seed-Audited id r cron target timezone live next given h
