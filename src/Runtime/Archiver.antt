-- ===== src/Runtime/Archiver.antt =====
-- The archiver: one pass of src/carve/runtime/archiver.py over the four tables that it keeps small.
-- The loop around it is timing.
pub mod Sweep
pub mod Pass
pub mod Refers
pub mod Held
pub mod Completes
mod Tests
use carve.Common.{
  ℕ, ◌+◌, String, Bool, true, false, Option, none, some, List, [], ◌∷◌, ◌++◌, ◌&&◌, ◌||◌, not, ltb,
  ◌==◌, contains, string_eq, nat_eq, option_eq, if◌then◌else◌,
}
use carve.Common.Slices.{length}
use carve.Common.Result.{Fallible, ok, err}

pub data TableName : Type 0 where
  jobs step_runs logs runs : TableName

-- The columns of the four tables that the archiver and the foreign keys read: the age column, the
-- status (`logs` has none), the tenant (only `jobs` has one), and the reference to `runs.id`, which is
-- `parent_run_id` in `runs` itself.
pub record Row : Type 0 where
  pub id : String
  pub finished : Option ℕ
  pub status : String
  pub tenant_id : ℕ
  pub run_id : Option String

-- A live table and its clone `<table>_archive`, which has no keys.
pub record Table : Type 0 where
  pub active : List Row
  pub archived : List Row

-- `last_run_ids` are the references of `pipelines.last_run_id`.
pub record Db : Type 0 where
  pub jobs_table : Table
  pub step_runs_table : Table
  pub logs_table : Table
  pub runs_table : Table
  pub last_run_ids : List (Option String)

abbrev pub table : TableName → Db → Table
table jobs db = db.jobs_table
table step_runs db = db.step_runs_table
table logs db = db.logs_table
table runs db = db.runs_table

abbrev pub put_table : TableName → Table → Db → Db
put_table jobs t db = record db { jobs_table = t }
put_table step_runs t db = record db { step_runs_table = t }
put_table logs t db = record db { logs_table = t }
put_table runs t db = record db { runs_table = t }

-- What the archiver knows of a table besides its name and its age column.
pub record TableSpec : Type 0 where
  pub status_filter : Option (List String)
  pub tenant_scoped : Bool

abbrev pub spec_of : TableName → TableSpec
spec_of jobs = record {
  status_filter = some ("succeeded" ∷ "failed" ∷ "cancelled" ∷ "timed_out" ∷ []);
  tenant_scoped = true;
}
spec_of step_runs = record {
  status_filter = some ("succeeded" ∷ "failed" ∷ "skipped" ∷ []);
  tenant_scoped = false;
}
spec_of logs = record { status_filter = none; tenant_scoped = false }
spec_of runs = record {
  status_filter = some ("success" ∷ "failed" ∷ "cancelled" ∷ "crashed" ∷ []);
  tenant_scoped = false;
}

-- The children stand before the runs that they refer to.
abbrev pub archive_tables : List TableName
archive_tables = jobs ∷ step_runs ∷ logs ∷ runs ∷ []

-- if status_filter: the clause stands only for a tuple that is not empty
abbrev pub status_in : Option (List String) → String → Bool
status_in none status = true
status_in (some []) status = true
status_in (some (s ∷ filter)) status = contains (s ∷ filter) status

-- finished < cutoff with cutoff = now - window, written without a negative number; NULL is not less.
abbrev pub aged : ℕ → ℕ → Option ℕ → Bool
aged now window none = false
aged now window (some t) = ltb (t + window) now

-- The WHERE clause.
unfoldable pub predicate : TableSpec → ℕ → ℕ → ℕ → Row → Bool
predicate spec now window tenant_id r =
    aged now window r.finished
    && ((not spec.tenant_scoped || r.tenant_id == tenant_id)
        && status_in spec.status_filter r.status)

unfoldable pub select_where : (Row → Bool) → List Row → List Row
select_where test [] = []
select_where test (r ∷ rows) =
    let rest = select_where test rows in if test r then r ∷ rest else rest

unfoldable pub delete_where : (Row → Bool) → List Row → List Row
delete_where test [] = []
delete_where test (r ∷ rows) =
    let rest = delete_where test rows in if test r then rest else r ∷ rest

abbrev pub archive_insert : (Row → Bool) → Table → Table
archive_insert test t = record t { archived = t.archived ++ select_where test t.active }

abbrev pub archive_delete : (Row → Bool) → Table → Table
archive_delete test t = record t { active = delete_where test t.active }

-- Some row refers to one of the ids.
unfoldable pub refers : List String → List Row → Bool
refers ids [] = false
refers ids (r ∷ rows) = elim r.run_id [
  | none ↦ refers ids rows
  | some run_id ↦ contains ids run_id || refers ids rows
]

unfoldable pub refer : List String → List (Option String) → Bool
refer ids [] = false
refer ids (none ∷ last) = refer ids last
refer ids (some run_id ∷ last) = contains ids run_id || refer ids last

unfoldable pub ids_of : List Row → List String
ids_of [] = []
ids_of (r ∷ rows) = r.id ∷ ids_of rows

-- The foreign keys to `runs.id` hold after the deletion of rows from a table.
unfoldable pub references_kept : TableName → List Row → Db → Bool
unfolding refers refer ids_of
references_kept runs removed db =
    let ids = ids_of removed in
    not (
      refers ids db.jobs_table.active
      || (refers ids db.step_runs_table.active
          || (refers ids db.logs_table.active
              || (refers ids db.runs_table.active || refer ids db.last_run_ids))))
references_kept _ removed db = true

pub data Statement : Type 0 where
  count insert delete commit : Statement

-- What the database and its driver do: which statements fail, and the row count that the driver
-- reports for a statement that changed so many rows, none for an unknown one.
pub record Driver : Type 0 where
  pub down : TableName → Statement → Bool
  pub rowcount : TableName → Statement → ℕ → Option ℕ

pub data ArchiveError : Type 0 where
  database_error : Statement → ArchiveError
  foreign_key_violation : ArchiveError
  verification_failed : ℕ → Option ℕ → Option (Option ℕ) → ArchiveError

module _ (d : Driver) where
  -- if deleted != expected, then the commit; the returned number is the verified one
  unfoldable pub commit_batch : TableName → ℕ → Option ℕ → Db → Fallible ArchiveError (ℕ × Db)
  commit_batch name expected deleted db =
      if not (deleted == some expected)
      then err (verification_failed expected (some expected) (some deleted))
      else if d.down name commit
      then err (database_error commit)
      else ok (expected, db)

  -- The DELETE, whose foreign keys are checked at its end.
  unfoldable pub delete_batch :
      (Row → Bool) → TableName → List Row → Db → Fallible ArchiveError (ℕ × Db)
  unfolding commit_batch references_kept delete_where
  delete_batch test name rows db =
      let db' = put_table name (archive_delete test (table name db)) db in
      if d.down name delete
      then err (database_error delete)
      else if not (references_kept name rows db')
      then err foreign_key_violation
      else commit_batch name (length rows) (d.rowcount name delete (length rows)) db'

  -- if inserted != expected, before the DELETE
  unfoldable pub insert_batch :
      (Row → Bool) → TableName → List Row → Db → Fallible ArchiveError (ℕ × Db)
  unfolding delete_batch
  insert_batch test name rows db =
      let inserted = d.rowcount name insert (length rows) in
      if d.down name insert
      then err (database_error insert)
      else if not (inserted == some (length rows))
      then err (verification_failed (length rows) inserted none)
      else delete_batch test name rows (put_table name (archive_insert test (table name db)) db)

  -- One transaction: an exception rolls every statement back.
  unfoldable pub archive_table_safely :
      (Row → Bool) → TableName → Db → Fallible ArchiveError (ℕ × Db)
  unfolding insert_batch select_where
  archive_table_safely test name db =
      let rows = select_where test (table name db).active in
      if d.down name count
      then err (database_error count)
      else if length rows == 0
      then ok (0, db)
      else insert_batch test name rows db

-- The result of a pass so far: the database and the rows moved of each table that completed, which are
-- also the payloads of its events `archive.batch_completed`, in order.
pub record Passed : Type 0 where
  pub db : Db
  pub moved : List (TableName × ℕ)

abbrev pub settle_table : TableName → Passed → Fallible ArchiveError (ℕ × Db) → Passed
settle_table name p (err e) = p
settle_table name p (ok (n, db)) = record { db = db; moved = p.moved ++ ((name, n) ∷ []) }

-- The instant, the parsed windows of the configuration, and the tenant.
pub record Settings : Type 0 where
  pub now : ℕ
  pub window : TableName → ℕ
  pub tenant_id : ℕ

abbrev pub test_of : Settings → TableName → Row → Bool
test_of c name = predicate (spec_of name) c.now (c.window name) c.tenant_id

-- An exception of one table's batch is logged, and the pass goes on.
unfoldable pub archive_one : Driver → Settings → TableName → Passed → Passed
unfolding archive_table_safely predicate
archive_one d c name p = settle_table name p (archive_table_safely d (test_of c name) name p.db)

unfoldable pub archive_each : Driver → Settings → List TableName → Passed → Passed
archive_each d c [] p = p
archive_each d c (name ∷ names) p = archive_each d c names (archive_one d c name p)

unfoldable pub archive_once : Driver → Settings → Db → Passed
unfolding archive_each
archive_once d c db = archive_each d c archive_tables (record { db = db; moved = [] })
