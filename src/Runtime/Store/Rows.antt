-- ===== src/Runtime/Store/Rows.antt =====
-- Tables with a primary key (src/carve/core/state/repository.py and job_queue.py).
use carve.Common.{
  String, none, some, List, [], ◌∷◌, ◌++◌, ◌==◌, string_eq, if◌then◌else◌, ◌≡◌, arith,
}
use carve.Runtime.Store.{find_row, change_row}

module _ {R : Type 0} (key : R → String) where
  pub find_row-change_row :
      (id other : String) (f : R → R) (rows : List R)
      → ((r : R) → key (f r) ≡ key r)
      → find_row key id (change_row key other f rows) ≡ (
          if id == other
          then elim (find_row key id rows) [ none ↦ none | some r ↦ some (f r) ]
          else find_row key id rows)
  unfolding find_row change_row
  find_row-change_row id other f [] keep = ground arith
  find_row-change_row id other f (r ∷ rows) keep =
      ground (arith, keep r, find_row-change_row id other f rows keep)

  -- A row with a fresh id is appended, found, and changed in its place.
  pub find_row-append :
      (id : String) (r : R) (rows : List R)
      → find_row key id rows ≡ none
      → key r ≡ id
      → find_row key id (rows ++ (r ∷ [])) ≡ some r
  unfolding find_row
  find_row-append id r [] n k = ground arith
  find_row-append id r (q ∷ rows) n k = ground (arith, find_row-append id r rows)

  pub change_row-append :
      (id : String) (f : R → R) (r : R) (rows : List R)
      → find_row key id rows ≡ none
      → key r ≡ id
      → change_row key id f (rows ++ (r ∷ [])) ≡ rows ++ (f r ∷ [])
  unfolding find_row change_row
  change_row-append id f r [] n k = ground arith
  change_row-append id f r (q ∷ rows) n k = ground (arith, change_row-append id f r rows)
