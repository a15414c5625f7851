-- ===== src/Runtime/Archiver/Sweep.antt =====
-- One batch of `archive_table_safely` of src/carve/runtime/archiver.py.
use mathlib.Core.List.{append-nil}
use carve.Common.{
  ℕ, ◌+◌, Bool, true, false, List, [], ◌∷◌, ◌++◌, ◌≡◌, refl, ap, ◌∙◌, sym, arith, ◌⊎◌, inl, inr,
  not, ◌==◌, nat_eq, option_eq, Option, some, none, if◌then◌else◌, Bool-cases,
}
use carve.Common.Slices.{length}
use carve.Common.Result.{Fallible, ok, err}
use carve.Runtime.Archiver.{
  TableName, jobs, step_runs, logs, runs, Row, Table, Db, table, put_table, select_where,
  delete_where, archive_insert, archive_delete, references_kept, count, insert, delete, commit,
  Driver, ArchiveError, database_error, foreign_key_violation, verification_failed, commit_batch,
  delete_batch, insert_batch, archive_table_safely,
}

-- The table after a batch: the rows of the test are in the archive.
abbrev pub swept : (Row → Bool) → Table → Table
swept test t = archive_delete test (archive_insert test t)

-- The rows of a test in a table, its archive included.
unfoldable pub tally : (Row → Bool) → List Row → ℕ
tally q [] = 0
tally q (r ∷ rows) = (if q r then 1 else 0) + tally q rows

past_guard :
    {A : Type 0} (stop : Bool) (e : ArchiveError) (rest : Fallible ArchiveError A) {a : A}
    → (if stop then err e else rest) ≡ ok a
    → (stop ≡ false) × (rest ≡ ok a)
past_guard true e rest h = absurd (cc)
past_guard false e rest h = (refl, h)

module _ (test : Row → Bool) where
  pub select_none :
      (rows : List Row)
      → length (select_where test rows) ≡ 0
      → (select_where test rows ≡ []) × (delete_where test rows ≡ rows)
  unfolding select_where delete_where length
  select_none [] h = (refl, refl)
  select_none (r ∷ rows) h = elim (Bool-cases (test r)) [
    | inl e ↦ absurd (omega (arith, rw (e, select_where) at h))
    | inr e ↦
        let (none_in, all_left) = select_none rows (rw (e, select_where) at h) in
        rw e (none_in, ap (λ rest. r ∷ rest) all_left)
  ]

  swept_none : (t : Table) → length (select_where test t.active) ≡ 0 → swept test t ≡ t
  swept_none t h =
      let (none_in, all_left) = select_none t.active h in simp (none_in, all_left, append-nil) refl

  put_same : (name : TableName) (db : Db) → put_table name (table name db) db ≡ db
  put_same jobs db = refl
  put_same step_runs db = refl
  put_same logs db = refl
  put_same runs db = refl

  put_put :
      (name : TableName) (db : Db)
      → put_table name
          (archive_delete test
            (table name (put_table name (archive_insert test (table name db)) db)))
          (put_table name (archive_insert test (table name db)) db)
        ≡ put_table name (swept test (table name db)) db
  put_put jobs db = refl
  put_put step_runs db = refl
  put_put logs db = refl
  put_put runs db = refl

  tally-append : (q : Row → Bool) (a b : List Row) → tally q (a ++ b) ≡ tally q a + tally q b
  unfolding tally
  tally-append q [] b = omega arith
  tally-append q (r ∷ a) b = ground (arith, tally-append q a b)

  tally-split :
      (q : Row → Bool) (rows : List Row)
      → tally q (delete_where test rows) + tally q (select_where test rows) ≡ tally q rows
  unfolding tally delete_where select_where
  tally-split q [] = refl
  tally-split q (r ∷ rows) = ground (arith, tally-split q rows)

  pub swept-count :
      (q : Row → Bool) (t : Table)
      → tally q (swept test t).active + tally q (swept test t).archived
        ≡ tally q t.active + tally q t.archived
  swept-count q t =
      omega (arith, tally-append q t.archived (select_where test t.active), tally-split q t.active)

  -- What a batch that commits has done.
  pub record Committed (name : TableName) (db after : Db) (n : ℕ) : Type 0 where
    pub result : after ≡ put_table name (swept test (table name db)) db
    pub moved : n ≡ length (select_where test (table name db).active)
    pub checked :
        ((n ≡ 0) × (after ≡ db))
        ⊎ (references_kept name (select_where test (table name db).active) after ≡ true)

  module _ (d : Driver) where
    commit-ok :
        (name : TableName) (expected n : ℕ) (deleted : Option ℕ) (db after : Db)
        → commit_batch d name expected deleted db ≡ ok (n, after)
        → (n ≡ expected) × (after ≡ db)
    unfolding commit_batch
    commit-ok name expected n deleted db after h =
        let (counted, h₁) =
          past_guard (not (deleted == some expected))
            (verification_failed expected (some expected) (some deleted)) _ h in
        let (up, h₂) = past_guard (d.down name commit) (database_error commit) _ h₁ in
        (cc (h₂), cc (h₂))

    delete-ok :
        (name : TableName) (rows : List Row) (db after : Db) (n : ℕ)
        → delete_batch d test name rows db ≡ ok (n, after)
        → (n ≡ length rows)
          × (after ≡ put_table name (archive_delete test (table name db)) db)
          × (references_kept name rows after ≡ true)
    unfolding delete_batch
    delete-ok name rows db after n h =
        let db' = put_table name (archive_delete test (table name db)) db in
        let (up, h₁) = past_guard (d.down name delete) (database_error delete) _ h in
        let (kept, h₂) =
          past_guard (not (references_kept name rows db')) foreign_key_violation _ h₁ in
        let (same, is_db) =
          commit-ok name (length rows) n (d.rowcount name delete (length rows)) db' after h₂ in
        (same, is_db, rw is_db (ground (arith, kept)))

    insert-ok :
        (name : TableName) (rows : List Row) (db after : Db) (n : ℕ)
        → insert_batch d test name rows db ≡ ok (n, after)
        → (n ≡ length rows)
          × (after ≡ put_table name (swept test (table name db)) db)
          × (references_kept name rows after ≡ true)
    unfolding insert_batch
    insert-ok name rows db after n h =
        let inserted = d.rowcount name insert (length rows) in
        let (up, h₁) = past_guard (d.down name insert) (database_error insert) _ h in
        let (counted, h₂) =
          past_guard (not (inserted == some (length rows)))
            (verification_failed (length rows) inserted none) _ h₁ in
        let (same, is_db, kept) =
          delete-ok name rows (put_table name (archive_insert test (table name db)) db) after n
            h₂ in
        (same, is_db ∙ put_put name db, kept)

    pub batch-Committed :
        (name : TableName) (db after : Db) (n : ℕ)
        → archive_table_safely d test name db ≡ ok (n, after)
        → Committed name db after n
    unfolding archive_table_safely
    batch-Committed name db after n h =
        let (up, h₁) = past_guard (d.down name count) (database_error count) _ h in
        elim (Bool-cases (length (select_where test (table name db).active) == 0)) [
          | inl e ↦
              let empty : length (select_where test (table name db).active) ≡ 0 =
                ground (arith, e) in
              let same : ◌≡◌ {A = Fallible ArchiveError (ℕ × Db)} (ok (0, db)) (ok (n, after)) =
                rw (e) at h₁ in
              record {
                result =
                    cc (same)
                    ∙ (sym (put_same name db)
                        ∙ ap (λ t. put_table name t db) (sym (swept_none (table name db) empty)));
                moved = cc (same) ∙ sym empty;
                checked = inl (cc (same), cc (same));
              }
          | inr e ↦
              let (same, is_db, kept) =
                insert-ok name (select_where test (table name db).active) db after n
                  (rw (e) at h₁) in
              record { result = is_db; moved = same; checked = inr kept }
        ]
