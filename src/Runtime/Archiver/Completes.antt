-- ===== src/Runtime/Archiver/Completes.antt =====
-- A pass of src/carve/runtime/archiver.py over a database that is up.
use carve.Common.{
  ℕ, Bool, true, false, Option, none, some, List, ◌≡◌, refl, ◌∙◌, arith, not, ◌==◌, nat_eq,
  option_eq, if◌then◌else◌, Bool-cases, inl, inr,
}
use carve.Common.Slices.{length}
use carve.Common.Result.{Fallible, ok, err}
use carve.Runtime.Archiver.{
  TableName, jobs, step_runs, logs, runs, Row, Db, table, put_table, select_where, archive_insert,
  archive_delete, references_kept, Statement, count, insert, delete, commit, Driver, ArchiveError,
  delete_batch, insert_batch, archive_table_safely, Passed, Settings, test_of, archive_one,
  archive_once,
}
use carve.Runtime.Archiver.Sweep.{swept}
use carve.Runtime.Archiver.Pass.{
  same_name, moved_of, moved_of-last, Same, one-Same, Same-then, started, after_jobs,
  after_step_runs, after_logs, step_runs-Same, logs-Same, TableOutcome, archived, untouched,
  archive_once-TableOutcome,
}

-- No statement on the table fails, and the driver reports the row counts.
pub record IsUp (d : Driver) (name : TableName) : Type 0 where
  pub up : (s : Statement) → d.down name s ≡ false
  pub counted : (s : Statement) (n : ℕ) → d.rowcount name s n ≡ some n

pub data IsDone : Fallible ArchiveError (ℕ × Db) → Type 0 where
  done : (n : ℕ) (after : Db) → IsDone (ok (n, after))

open_guard :
    (stop : Bool) (e : ArchiveError) (rest : Fallible ArchiveError (ℕ × Db))
    → stop ≡ false
    → IsDone rest
    → IsDone (if stop then err e else rest)
open_guard true e rest h r = absurd (cc)
open_guard false e rest h r = r

as_expected : (reported : Option ℕ) (n : ℕ) → reported ≡ some n → not (reported == some n) ≡ false
as_expected reported n h = ground arith

child-kept :
    (name : TableName) (rows : List Row) (db : Db)
    → same_name runs name ≡ false
    → not (references_kept name rows db) ≡ false
unfolding references_kept
child-kept jobs rows db h = refl
child-kept step_runs rows db h = refl
child-kept logs rows db h = refl
child-kept runs rows db h = absurd (cc)

module _ (test : Row → Bool) (d : Driver) where
  delete-IsDone :
      (name : TableName) (rows : List Row) (db : Db)
      → IsUp d name
      → same_name runs name ≡ false
      → IsDone (delete_batch d test name rows db)
  unfolding delete_batch
  delete-IsDone name rows db u h = open_guard _ _ _ (u.up delete) (
      open_guard _ _ _
        (child-kept name rows (put_table name (archive_delete test (table name db)) db) h)
        (open_guard _ _ _
          (as_expected (d.rowcount name delete (length rows)) (length rows)
            (u.counted delete (length rows)))
          (open_guard _ _ _ (u.up commit) (done _ _))))

  insert-IsDone :
      (name : TableName) (rows : List Row) (db : Db)
      → IsUp d name
      → same_name runs name ≡ false
      → IsDone (insert_batch d test name rows db)
  unfolding insert_batch
  insert-IsDone name rows db u h = open_guard _ _ _ (u.up insert) (
      open_guard _ _ _
        (as_expected (d.rowcount name insert (length rows)) (length rows)
          (u.counted insert (length rows)))
        (delete-IsDone name rows (put_table name (archive_insert test (table name db)) db) u h))

  batch-IsDone :
      (name : TableName) (db : Db)
      → IsUp d name
      → same_name runs name ≡ false
      → IsDone (archive_table_safely d test name db)
  unfolding archive_table_safely
  batch-IsDone name db u h =
      open_guard _ _ _ (u.up count)
        (elim (Bool-cases (length (select_where test (table name db).active) == 0)) [
          | inl e ↦ rw e (done 0 db)
          | inr e ↦ rw e (insert-IsDone name (select_where test (table name db).active) db u h)
        ])

IsDone-ok :
    (r : Fallible ArchiveError (ℕ × Db)) → IsDone r → (n : ℕ) × (after : Db) × (r ≡ ok (n, after))
IsDone-ok _ (done n after) = (n, after, refl)

module _ (d : Driver) (c : Settings) where
  abbrev Reported : TableName → Passed → Type 0
  Reported name p = (n : ℕ) × (moved_of name p.moved ≡ some n)

  one-Reported :
      (name : TableName) (p : Passed)
      → IsUp d name
      → same_name runs name ≡ false
      → moved_of name p.moved ≡ none
      → Reported name (archive_one d c name p)
  unfolding archive_one
  one-Reported name p u h e =
      let (n, after, f) =
        IsDone-ok (archive_table_safely d (test_of c name) name p.db)
          (batch-IsDone (test_of c name) d name p.db u h) in
      rw (f, archive_one) (n, moved_of-last name n p.moved e)

  framed_report :
      (name : TableName) (p q : Passed) → Reported name p → Same d c name p q → Reported name q
  framed_report name p q (n, e) s = (n, s.same_moved ∙ e)

  child-Reported :
      (name : TableName) (db : Db)
      → IsUp d name
      → same_name runs name ≡ false
      → Reported name (archive_once d c db)
  unfolding archive_once moved_of
  child-Reported jobs db u h =
      framed_report jobs (after_jobs d c db) _ (one-Reported jobs (started db) u refl refl) (
        Same-then d c (one-Same d c jobs step_runs (after_jobs d c db) refl)
          (logs-Same d c jobs db refl refl))
  child-Reported step_runs db u h =
      framed_report step_runs (after_step_runs d c db) _
        (one-Reported step_runs (after_jobs d c db) u refl
          (one-Same d c step_runs jobs (started db) refl).same_moved)
        (logs-Same d c step_runs db refl refl)
  child-Reported logs db u h =
      framed_report logs (after_logs d c db) _
        (one-Reported logs (after_step_runs d c db) u refl
          (step_runs-Same d c logs db refl refl).same_moved)
        (one-Same d c logs runs (after_logs d c db) refl)
  child-Reported runs db u h = absurd (cc)

  by_report :
      (name : TableName) (db : Db) (p : Passed)
      → TableOutcome c name db p
      → Reported name p
      → table name p.db ≡ swept (test_of c name) (table name db)
  by_report name db p (archived t m) r = t
  by_report name db p (untouched t m) (n, e) = absurd (cc)

  -- Where no statement on a table of children fails and the driver reports the row counts, a pass
  -- archives that table, whatever happens to the others: exactly its rows that are terminal and older
  -- than its window move to the archive.
  pub archive_once-archives :
      (name : TableName) (db : Db)
      → IsUp d name
      → same_name runs name ≡ false
      → table name (archive_once d c db).db ≡ swept (test_of c name) (table name db)
  archive_once-archives name db u h =
      by_report name db (archive_once d c db) (archive_once-TableOutcome d c name db)
        (child-Reported name db u h)
