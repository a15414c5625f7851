-- ===== src/Runtime/Archiver/Held.antt =====
-- What keeps a pass of src/carve/runtime/archiver.py from archiving the runs.
use carve.Common.{true, false, some, ◌≡◌, refl, ap, ◌∙◌, inl, inr, string_eq}
use carve.Common.Result.{Fallible-cases}
use carve.Runtime.Archiver.{
  TableName, step_runs, logs, runs, Row, Db, table, select_where, Driver, archive_table_safely,
  Passed, Settings, test_of, archive_one, archive_once,
}
use carve.Runtime.Archiver.Sweep.{batch-Committed}
use carve.Runtime.Archiver.Pass.{
  same_name, other_table, one-Same, Same-then, step_runs-Same, after_step_runs, after_logs,
  TableOutcome, archived, untouched, archive_once-TableOutcome,
}
use carve.Runtime.Archiver.Refers.{On, On-kept, On-selected, On-ids, unreferred}

module _ (d : Driver) (c : Settings) where
  -- A pass that stands before the deletion of runs.
  runs_blocked :
      (p : Passed) (name : TableName) (child run : Row)
      → On child (table name p.db).active
      → child.run_id ≡ some run.id
      → On run (table runs p.db).active
      → test_of c runs run ≡ true
      → same_name runs name ≡ false
      → table runs (archive_one d c runs p).db ≡ table runs p.db
  unfolding archive_one
  runs_blocked p name child run m e k t other =
      elim (Fallible-cases (archive_table_safely d (test_of c runs) runs p.db)) [
        | inl (x, f) ↦ rw (f, archive_one) refl
        | inr ((n, after), f) ↦
            let done = batch-Committed (test_of c runs) d runs p.db after n f in
            rw (f, archive_one)
              (elim done.checked [
                | inl (zero_moved, same) ↦ ap (table runs) same
                | inr kept ↦
                    let chosen = select_where (test_of c runs) (table runs p.db).active in
                    let same : table name after ≡ table name p.db =
                      ap (table name) done.result ∙ other_table name runs _ p.db other in
                    let free =
                      unreferred chosen after name child run.id kept
                        (rw (ap (λ t. On child t.active) same) m) e in
                    absurd (
                      cc (
                        free,
                        On-ids run chosen
                            (On-selected (test_of c runs) run (table runs p.db).active t k),
                      ))
              ])
      ]

  stays :
      (name : TableName) (r : Row) (db : Db) (p : Passed)
      → TableOutcome c name db p
      → On r (table name db).active
      → test_of c name r ≡ false
      → On r (table name p.db).active
  stays name r db p (archived t m) o f =
      rw (ap (λ t. On r t.active) t) (On-kept (test_of c name) r (table name db).active f o)
  stays name r db p (untouched t m) o f = rw (ap (λ t. On r t.active) t) o

  -- A row of `step_runs` that is not archived, because it never ended or ended too late, keeps a pass
  -- from archiving any run as long as the run that it belongs to is itself terminal and old enough:
  -- the runs table is left as it was, whatever other runs it holds.
  pub unfinished_step_holds_runs :
      (db : Db) (child run : Row)
      → On child (table step_runs db).active
      → test_of c step_runs child ≡ false
      → child.run_id ≡ some run.id
      → On run (table runs db).active
      → test_of c runs run ≡ true
      → table runs (archive_once d c db).db ≡ table runs db
  unfolding archive_once
  unfinished_step_holds_runs db child run m f e k t =
      let runs_same =
        Same-then d c (step_runs-Same d c runs db refl refl)
          (one-Same d c runs logs (after_step_runs d c db) refl) in
      let still = one-Same d c step_runs runs (after_logs d c db) refl in
      runs_blocked (after_logs d c db) step_runs child run
        (rw (ap (λ t. On child t.active) still.same_table) at (
          stays step_runs child db (archive_once d c db)
            (archive_once-TableOutcome d c step_runs db) m f))
        e (rw (ap (λ t. On run t.active) runs_same.same_table) k) t refl
      ∙ runs_same.same_table
