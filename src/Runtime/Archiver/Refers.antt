-- ===== src/Runtime/Archiver/Refers.antt =====
-- Rows of a table, the references to `runs.id`, and what the foreign keys say of deleted ids
-- (src/carve/runtime/archiver.py).
use carve.Common.{
  String, Bool, true, false, Option, none, some, List, [], ◌∷◌, ◌≡◌, arith, inl, inr, Bool-cases,
  Option-cases, contains, string_eq,
}
use carve.Runtime.Archiver.{
  TableName, jobs, step_runs, logs, runs, Row, Db, table, select_where, delete_where, refers, refer,
  ids_of, references_kept,
}

pub data On (r : Row) : List Row → Type 0 where
  here : {rows : List Row} → On r (r ∷ rows)
  there : {s : Row} {rows : List Row} → On r rows → On r (s ∷ rows)

pub data Names (x : String) : List (Option String) → Type 0 where
  named : {last : List (Option String)} → Names x (some x ∷ last)
  later : {o : Option String} {last : List (Option String)} → Names x last → Names x (o ∷ last)

either :
    (r s : Row) (rows kept : List Row) → (On r kept → On r rows) → On r (s ∷ kept) → On r (s ∷ rows)
either _ s rows kept f here = here
either r s rows kept f (there m) = there (f m)

module _ (test : Row → Bool) where
  pub On-kept :
      (r : Row) (rows : List Row) → test r ≡ false → On r rows → On r (delete_where test rows)
  unfolding delete_where
  On-kept r [] e m = elim m [ ]
  On-kept _ (r ∷ rows) e here = rw e here
  On-kept r (s ∷ rows) e (there m) = elim (Bool-cases (test s)) [
    | inl t ↦ rw t (On-kept r rows e m)
    | inr t ↦ rw t (there (On-kept r rows e m))
  ]

  pub On-selected :
      (r : Row) (rows : List Row) → test r ≡ true → On r rows → On r (select_where test rows)
  unfolding select_where
  On-selected r [] e m = elim m [ ]
  On-selected _ (r ∷ rows) e here = rw e here
  On-selected r (s ∷ rows) e (there m) = elim (Bool-cases (test s)) [
    | inl t ↦ rw t (there (On-selected r rows e m))
    | inr t ↦ rw t (On-selected r rows e m)
  ]

pub On-ids : (r : Row) (rows : List Row) → On r rows → contains (ids_of rows) r.id ≡ true
unfolding ids_of
On-ids r [] m = elim m [ ]
On-ids _ (r ∷ rows) here = ground arith
On-ids r (s ∷ rows) (there m) = ground (arith, On-ids r rows m)

pub On-refers :
    (ids : List String) (r : Row) (rows : List Row) (x : String)
    → On r rows
    → r.run_id ≡ some x
    → contains ids x ≡ true
    → refers ids rows ≡ true
unfolding refers
On-refers ids r [] x m e k = elim m [ ]
On-refers ids _ (r ∷ rows) x here e k = rw (e, refers) (ground (arith, k))
On-refers ids r (s ∷ rows) x (there m) e k = elim (Option-cases s.run_id) [
  | inl o ↦ rw (o, refers) (On-refers ids r rows x m e k)
  | inr (y, o) ↦ rw (o, refers) (ground (arith, On-refers ids r rows x m e k))
]

pub Names-refer :
    (ids : List String) (last : List (Option String)) (x : String)
    → Names x last
    → contains ids x ≡ true
    → refer ids last ≡ true
unfolding refer
Names-refer ids [] x m k = elim m [ ]
Names-refer ids _ x (named {last}) k = ground (arith, k)
Names-refer ids (none ∷ last) x (later m) k = Names-refer ids last x m k
Names-refer ids (some y ∷ last) x (later m) k = ground (arith, Names-refer ids last x m k)

-- What the foreign keys say of ids that were deleted.
pub unreferred :
    (removed : List Row) (db : Db) (name : TableName) (r : Row) (x : String)
    → references_kept runs removed db ≡ true
    → On r (table name db).active
    → r.run_id ≡ some x
    → contains (ids_of removed) x ≡ false
unfolding references_kept
unreferred removed db jobs r x h m e =
    ground (arith, On-refers (ids_of removed) r (table jobs db).active x m e)
unreferred removed db step_runs r x h m e =
    ground (arith, On-refers (ids_of removed) r (table step_runs db).active x m e)
unreferred removed db logs r x h m e =
    ground (arith, On-refers (ids_of removed) r (table logs db).active x m e)
unreferred removed db runs r x h m e =
    ground (arith, On-refers (ids_of removed) r (table runs db).active x m e)
