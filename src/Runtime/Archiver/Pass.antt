-- ===== src/Runtime/Archiver/Pass.antt =====
-- One pass of `archive_once` of src/carve/runtime/archiver.py.
use carve.Common.{
  ℕ, ◌+◌, Bool, true, false, Option, none, some, List, [], ◌∷◌, ◌++◌, ◌≡◌, refl, ap, ◌∙◌, arith,
  inl, inr, if◌then◌else◌,
}
use carve.Common.Slices.{length}
use carve.Common.Result.{Fallible-cases}
use carve.Runtime.Archiver.{
  TableName, jobs, step_runs, logs, runs, Row, Table, Db, table, put_table, select_where, Driver,
  archive_table_safely, Passed, Settings, test_of, archive_one, archive_once,
}
use carve.Runtime.Archiver.Sweep.{swept, tally, swept-count, batch-Committed}

abbrev pub same_name : TableName → TableName → Bool
same_name jobs jobs = true
same_name step_runs step_runs = true
same_name logs logs = true
same_name runs runs = true
same_name _ _ = false

-- The number of rows that a pass reports for a table, if the table completed.
unfoldable pub moved_of : TableName → List (TableName × ℕ) → Option ℕ
moved_of name [] = none
moved_of name ((other, n) ∷ moved) = if same_name other name then some n else moved_of name moved

-- What a pass did to one table.
pub data TableOutcome (c : Settings) (name : TableName) (db : Db) (p : Passed) : Type 0 where
  archived :
      table name p.db ≡ swept (test_of c name) (table name db)
      → moved_of name p.moved ≡ some (length (select_where (test_of c name) (table name db).active))
      → TableOutcome c name db p
  untouched :
      table name p.db ≡ table name db → moved_of name p.moved ≡ none → TableOutcome c name db p

same_name_refl : (name : TableName) → same_name name name ≡ true
same_name_refl jobs = refl
same_name_refl step_runs = refl
same_name_refl logs = refl
same_name_refl runs = refl

moved_of-append :
    (name other : TableName) (n : ℕ) (moved : List (TableName × ℕ))
    → same_name other name ≡ false
    → moved_of name (moved ++ ((other, n) ∷ [])) ≡ moved_of name moved
unfolding moved_of
moved_of-append name other n [] h = ground (arith, h)
moved_of-append name other n ((k, m) ∷ moved) h =
    ground (arith, moved_of-append name other n moved h)

pub moved_of-last :
    (name : TableName) (n : ℕ) (moved : List (TableName × ℕ))
    → moved_of name moved ≡ none
    → moved_of name (moved ++ ((name, n) ∷ [])) ≡ some n
unfolding moved_of
moved_of-last name n [] h = rw (same_name_refl name) refl
moved_of-last name n ((k, m) ∷ moved) h = ground (arith, moved_of-last name n moved)

pub other_table :
    (name other : TableName) (t : Table) (db : Db)
    → same_name other name ≡ false
    → table name (put_table other t db) ≡ table name db
other_table jobs jobs t db h = absurd (cc)
other_table jobs step_runs t db h = refl
other_table jobs logs t db h = refl
other_table jobs runs t db h = refl
other_table step_runs jobs t db h = refl
other_table step_runs step_runs t db h = absurd (cc)
other_table step_runs logs t db h = refl
other_table step_runs runs t db h = refl
other_table logs jobs t db h = refl
other_table logs step_runs t db h = refl
other_table logs logs t db h = absurd (cc)
other_table logs runs t db h = refl
other_table runs jobs t db h = refl
other_table runs step_runs t db h = refl
other_table runs logs t db h = refl
other_table runs runs t db h = absurd (cc)

pub own_table : (name : TableName) (t : Table) (db : Db) → table name (put_table name t db) ≡ t
own_table jobs t db = refl
own_table step_runs t db = refl
own_table logs t db = refl
own_table runs t db = refl

abbrev pub started : Db → Passed
started db = record { db = db; moved = [] }

module _ (d : Driver) (c : Settings) where
  -- The batch of another table changes neither a table nor what is reported for it.
  pub record Same (name : TableName) (before after : Passed) : Type 0 where
    pub same_table : table name after.db ≡ table name before.db
    pub same_moved : moved_of name after.moved ≡ moved_of name before.moved

  pub one-Same :
      (name other : TableName) (p : Passed)
      → same_name other name ≡ false
      → Same name p (archive_one d c other p)
  unfolding archive_one
  one-Same name other p h =
      elim (Fallible-cases (archive_table_safely d (test_of c other) other p.db)) [
        | inl (x, e) ↦ rw (e, archive_one) (record { same_table = refl; same_moved = refl })
        | inr ((n, after), e) ↦
            let done = batch-Committed (test_of c other) d other p.db after n e in
            rw (e, archive_one)
              (record {
                same_table = ap (table name) done.result ∙ other_table name other _ p.db h;
                same_moved = moved_of-append name other n p.moved h;
              })
      ]

  one-TableOutcome :
      (name : TableName) (p : Passed)
      → moved_of name p.moved ≡ none
      → TableOutcome c name p.db (archive_one d c name p)
  unfolding archive_one
  one-TableOutcome name p h =
      elim (Fallible-cases (archive_table_safely d (test_of c name) name p.db)) [
        | inl (x, e) ↦ rw (e, archive_one) (untouched refl h)
        | inr ((n, after), e) ↦
            let done = batch-Committed (test_of c name) d name p.db after n e in
            rw (e, archive_one)
              (archived (ap (table name) done.result ∙ own_table name _ p.db)
                (moved_of-last name n p.moved h ∙ ap some done.moved))
      ]

  pub Same-then :
      {name : TableName} {p q r : Passed} → Same name p q → Same name q r → Same name p r
  Same-then s t = record {
    same_table = t.same_table ∙ s.same_table;
    same_moved = t.same_moved ∙ s.same_moved;
  }

  -- What stays the same before and after the batch of a table leaves its outcome.
  framed :
      (name : TableName) (db : Db) (before after last : Passed)
      → table name before.db ≡ table name db
      → TableOutcome c name before.db after
      → Same name after last
      → TableOutcome c name db last
  framed name db before after last s (archived t m) e =
      archived (e.same_table ∙ (t ∙ ap (swept (test_of c name)) s))
        (e.same_moved ∙ (m ∙ ap (λ t. some (length (select_where (test_of c name) t.active))) s))
  framed name db before after last s (untouched t m) e =
      untouched (e.same_table ∙ (t ∙ s)) (e.same_moved ∙ m)

  abbrev pub after_jobs : Db → Passed
  after_jobs db = archive_one d c jobs (started db)

  abbrev pub after_step_runs : Db → Passed
  after_step_runs db = archive_one d c step_runs (after_jobs db)

  abbrev pub after_logs : Db → Passed
  after_logs db = archive_one d c logs (after_step_runs db)

  pub logs-Same :
      (name : TableName) (db : Db)
      → same_name logs name ≡ false
      → same_name runs name ≡ false
      → Same name (after_step_runs db) (archive_one d c runs (after_logs db))
  logs-Same name db l r =
      Same-then (one-Same name logs (after_step_runs db) l) (one-Same name runs (after_logs db) r)

  pub step_runs-Same :
      (name : TableName) (db : Db)
      → same_name jobs name ≡ false
      → same_name step_runs name ≡ false
      → Same name (started db) (after_step_runs db)
  step_runs-Same name db j s =
      Same-then (one-Same name jobs (started db) j) (one-Same name step_runs (after_jobs db) s)

  -- For every table, one pass either moves exactly the rows of the table that are terminal and older
  -- than its window into the archive and reports how many there were, or leaves the table as it was
  -- and reports nothing; whatever fails and whatever row counts the driver reports.
  pub archive_once-TableOutcome :
      (name : TableName) (db : Db) → TableOutcome c name db (archive_once d c db)
  unfolding archive_once moved_of
  archive_once-TableOutcome jobs db =
      framed jobs db (started db) (after_jobs db) _ refl (one-TableOutcome jobs (started db) refl)
        (Same-then (one-Same jobs step_runs (after_jobs db) refl) (logs-Same jobs db refl refl))
  archive_once-TableOutcome step_runs db =
      let s = one-Same step_runs jobs (started db) refl in
      framed step_runs db (after_jobs db) (after_step_runs db) _ s.same_table
        (one-TableOutcome step_runs (after_jobs db) s.same_moved) (logs-Same step_runs db refl refl)
  archive_once-TableOutcome logs db =
      let s = step_runs-Same logs db refl refl in
      framed logs db (after_step_runs db) (after_logs db) _ s.same_table
        (one-TableOutcome logs (after_step_runs db) s.same_moved)
        (one-Same logs runs (after_logs db) refl)
  archive_once-TableOutcome runs db =
      let s =
        Same-then (step_runs-Same runs db refl refl)
          (one-Same runs logs (after_step_runs db) refl) in
      framed runs db (after_logs db) _ _ s.same_table
        (one-TableOutcome runs (after_logs db) s.same_moved)
        (record { same_table = refl; same_moved = refl })

  kept_count :
      (name : TableName) (db : Db) (q : Row → Bool) (p : Passed)
      → TableOutcome c name db p
      → tally q (table name p.db).active + tally q (table name p.db).archived
        ≡ tally q (table name db).active + tally q (table name db).archived
  kept_count name db q p (archived t m) = rw t (swept-count (test_of c name) q (table name db))
  kept_count name db q p (untouched t m) = rw t refl

  -- No row is lost or doubled: of the rows that any test picks out, a table and its archive hold
  -- together as many after a pass as before.
  pub archive_once-conserves :
      (name : TableName) (db : Db) (q : Row → Bool)
      → tally q (table name (archive_once d c db).db).active
          + tally q (table name (archive_once d c db).db).archived
        ≡ tally q (table name db).active + tally q (table name db).archived
  archive_once-conserves name db q =
      kept_count name db q (archive_once d c db) (archive_once-TableOutcome name db)
