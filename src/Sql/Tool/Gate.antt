-- ===== src/Sql/Tool/Gate.antt =====
-- What reaches the write runner of the `sql` tool of src/carve/core/sql/tool.py.
use carve.Common.{
  ℕ, ◌+◌, String, Bool, true, false, Option, none, some, List, [], ◌∷◌, ◌++◌, ◌≡◌, ◌↔◌, refl, inl,
  inr, Bool-cases, Option-cases,
}
use carve.Common.Text.{is_blank}
use carve.Common.Result.{Fallible, ok, Fallible-cases}
use carve.Permissions.Modes.{deploy, mode_permits, role_for}
use carve.Sql.Classify.{
  StatementKind, read, write, ddl, destructive_ddl, is_read, classify, is_read_only,
}
use carve.Sql.Classify.ReadOnly.{AllReads, is_read_only-AllReads}
use carve.Sql.Tool.{
  NoRows, Tool, SqlInput, text, no_text, require_sql, run_text, run_required, Effect, queried,
  executed, ddl_prompt, approves, question, write_sql, run_write, run_kind, run_sql,
}

pub data Has (e : Effect) : List Effect → Type 0 where
  first : {rest : List Effect} → Has e (e ∷ rest)
  later : {f : Effect} {rest : List Effect} → Has e rest → Has e (f ∷ rest)

ask_first :
    (approver : Option (String → Bool)) (prompt : String) (e : Effect) (rest : List Effect)
    → Has e rest
    → Has e (question approver prompt ++ rest)
ask_first none prompt e rest h = h
ask_first (some approver) prompt e rest h = later h

not_in_question :
    (approver : Option (String → Bool)) (prompt other : String) (rest : List Effect)
    → Has (executed other) (question approver prompt ++ rest)
    → Has (executed other) rest
not_in_question none prompt other rest h = h
not_in_question (some approver) prompt other rest (later h) = h

nothing {ℓ} : {A : Type ℓ} {e : Effect} → Has e [] → A
nothing h = elim h [ ]

no_write {ℓ} :
    {A : Type ℓ} {other sql : String} {n : ℕ} → Has (executed other) (queried sql n ∷ []) → A
no_write (later h) = elim h [ ]

the_effect : (e f : Effect) → Has e (f ∷ []) → e ≡ f
the_effect e _ first = refl
the_effect e f (later h) = elim h [ ]

the_text : (other sql : String) → Has (executed other) (executed sql ∷ []) → other ≡ sql
the_text other _ first = refl
the_text other sql (later h) = elim h [ ]

no_question :
    (approver : Option (String → Bool)) (prompt other : String)
    → Has (executed other) (question approver prompt)
    → ⊥
no_question none prompt other h = elim h [ ]
no_question (some approver) prompt other (later h) = elim h [ ]

abbrev pub Agreed : Option (String → Bool) → String → StatementKind → Type 0
Agreed approver sql kind = kind ≡ destructive_ddl → approves approver (ddl_prompt sql) ≡ true

module _ {Row : Type 0} where
  -- What must hold of a text before it is sent to the write runner.
  pub record MayWrite (t : Tool Row) (sql : String) : Type 0 where
    pub not_blank : is_blank sql ≡ false
    pub kind : StatementKind
    pub classified : classify t.parse sql t.dialect ≡ ok kind
    pub not_read : is_read kind ≡ false
    pub deploying : mode_permits t.mode deploy ≡ true
    pub runner : String → Fallible String NoRows
    pub has_runner : t.write_runner ≡ some runner
    pub agreed : Agreed t.approver sql kind

  write_sql-executes :
      (t : Tool Row) (execute : String → Fallible String NoRows) (sql other : String)
      (kind : StatementKind)
      → Has (executed other) (write_sql {Row = Row} t.approver execute sql kind).1
      → (other ≡ sql) × Agreed t.approver sql kind
  unfolding write_sql
  write_sql-executes t execute sql other read h = (the_text other sql h, λ e. absurd (cc))
  write_sql-executes t execute sql other write h = (the_text other sql h, λ e. absurd (cc))
  write_sql-executes t execute sql other ddl h = (the_text other sql h, λ e. absurd (cc))
  write_sql-executes t execute sql other destructive_ddl h =
      elim (Bool-cases (approves t.approver (ddl_prompt sql))) [
        | inl e ↦ (
          the_text other sql
              (not_in_question t.approver (ddl_prompt sql) other _ (rw (e, write_sql) at h)),
          λ k. e,
        )
        | inr e ↦ absurd (no_question t.approver (ddl_prompt sql) other (rw (e, write_sql) at h))
      ]

  write_sql-writes :
      (t : Tool Row) (execute : String → Fallible String NoRows) (sql : String)
      (kind : StatementKind)
      → Agreed t.approver sql kind
      → Has (executed sql) (write_sql {Row = Row} t.approver execute sql kind).1
  unfolding write_sql
  write_sql-writes t execute sql read a = first
  write_sql-writes t execute sql write a = first
  write_sql-writes t execute sql ddl a = first
  write_sql-writes t execute sql destructive_ddl a =
      rw (a refl, write_sql) (ask_first t.approver (ddl_prompt sql) (executed sql) _ first)

  kind_writes :
      (t : Tool Row) (sql other : String) (kind : StatementKind)
      → is_blank sql ≡ false
      → classify t.parse sql t.dialect ≡ ok kind
      → Has (executed other) (run_kind t sql (ok kind)).1
      → (other ≡ sql) × MayWrite t sql
  unfolding run_kind role_for
  kind_writes t sql other kind filled c h = elim (Bool-cases (is_read kind)) [
    | inl e ↦ no_write (rw (e, run_kind) at h)
    | inr e ↦ elim (Bool-cases (mode_permits t.mode deploy)) [
      | inl d ↦ elim (Option-cases t.write_runner) [
        | inl n ↦ nothing (rw (n, run_write) at (rw (d, role_for) at (rw (e, run_kind) at h)))
        | inr (f, r) ↦
            let (same, agreed) =
              write_sql-executes t f sql other kind
                (rw (r, run_write) at (rw (d, role_for) at (rw (e, run_kind) at h))) in
            (
              same,
              record {
                not_blank = filled;
                kind = kind;
                classified = c;
                not_read = e;
                deploying = d;
                runner = f;
                has_runner = r;
                agreed = agreed;
              },
            )
      ]
      | inr d ↦ nothing (rw (d, role_for) at (rw (e, run_kind) at h))
    ]
  ]

  run_text_of :
      (t : Tool Row) (sql : String) → MayWrite t sql → Has (executed sql) (run_text t sql).1
  unfolding run_text role_for
  run_text_of t sql m =
      rw (m.classified, run_text)
        (rw (m.not_read, run_kind)
          (rw (m.deploying, role_for)
            (rw (m.has_runner, run_write) (write_sql-writes t m.runner sql m.kind m.agreed))))

  MayWrite-of :
      (t : Tool Row) (sql other : String)
      → is_blank sql ≡ false
      → Has (executed other) (run_text t sql).1
      → (other ≡ sql) × MayWrite t sql
  unfolding run_text
  MayWrite-of t sql other filled h = elim (Fallible-cases (classify t.parse sql t.dialect)) [
    | inl (e, c) ↦ nothing (rw (c, run_text) at h)
    | inr (kind, c) ↦ kind_writes t sql other kind filled c (rw (c, run_text) at h)
  ]

  -- The input that a run with an effect had: a text that is not blank.
  text_of :
      (t : Tool Row) (input : SqlInput) (e : Effect)
      → Has e (run_sql t input).1
      → (sql : String) × (input ≡ text sql) × (is_blank sql ≡ false) × Has e (run_text t sql).1
  unfolding run_sql require_sql run_required
  text_of t no_text e h = nothing h
  text_of t (text sql) e h = elim (Bool-cases (is_blank sql)) [
    | inl blank ↦ nothing (rw blank at h)
    | inr filled ↦ (sql, refl, filled, rw filled at h)
  ]

  run_sql_of :
      (t : Tool Row) (sql : String) (e : Effect)
      → is_blank sql ≡ false
      → Has e (run_text t sql).1
      → Has e (run_sql t (text sql)).1
  unfolding run_sql require_sql run_required
  run_sql_of t sql e filled h = rw filled h

  writes_of :
      (t : Tool Row) (input : SqlInput) (other : String)
      → Has (executed other) (run_sql t input).1
      → (input ≡ text other) × MayWrite t other
  writes_of t input other h =
      let (sql, e, filled, ran) = text_of t input (executed other) h in
      let (same, may) = MayWrite-of t sql other filled ran in (rw same e, rw same may)

  -- The text `other` is sent to the write runner exactly when it is the input's own text, which is not
  -- blank and is classified as no read, the mode permits deploying, there is a write runner, and, if
  -- the text drops or truncates, the approver agreed to it.
  pub run_sql-MayWrite :
      (t : Tool Row) (input : SqlInput) (other : String)
      → Has (executed other) (run_sql t input).1 ↔ ((input ≡ text other) × MayWrite t other)
  run_sql-MayWrite t input other = (
    writes_of t input other,
    λ (same, m). rw same (run_sql_of t other (executed other) m.not_blank (run_text_of t other m)),
  )

  text_reads :
      (t : Tool Row) (sql : String) (e : Effect)
      → mode_permits t.mode deploy ≡ false
      → Has e (run_text t sql).1
      → (e ≡ queried sql (t.row_cap + 1)) × AllReads t.parse sql t.dialect
  unfolding run_text run_kind role_for is_read_only
  text_reads t sql e below h = elim (Fallible-cases (classify t.parse sql t.dialect)) [
    | inl (x, c) ↦ nothing (rw (c, run_text) at h)
    | inr (kind, c) ↦ elim (Bool-cases (is_read kind)) [
      | inl r ↦ (
        the_effect e _ (rw (r, run_kind) at (rw (c, run_text) at h)),
        (is_read_only-AllReads t.parse sql t.dialect).0 (rw (c, is_read_only) r),
      )
      | inr r ↦ nothing (rw (below, role_for) at (rw (r, run_kind) at (rw (c, run_text) at h)))
    ]
  ]

  -- Below the deploy mode an input reaches the warehouse only as one capped query of its own text, and
  -- only if that is read-only: it parses in the tool's dialect and every statement in it is a read.
  pub below_deploy_reads :
      (t : Tool Row) (input : SqlInput) (e : Effect)
      → mode_permits t.mode deploy ≡ false
      → Has e (run_sql t input).1
      → (sql : String) × (input ≡ text sql)
        × (e ≡ queried sql (t.row_cap + 1))
        × AllReads t.parse sql t.dialect
  below_deploy_reads t input e below h =
      let (sql, same, filled, ran) = text_of t input e h in
      let (only, reads) = text_reads t sql e below ran in (sql, same, only, reads)
