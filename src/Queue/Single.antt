-- ===== src/Queue/Single.antt =====
-- UPDATEs of the `jobs` table that reach one row, found by its primary key.
use carve.Common.{
  ◌+◌, ◌≤◌, String, Bool, true, false, some, List, [], ◌∷◌, ◌++◌, ◌≡◌, refl, arith, ◌⊎◌, inl, inr,
  if◌then◌else◌, string_eq, nat_eq, ◌==◌, Bool-cases, sym, ◌∙◌,
}
use carve.Queue.Table.{Job, Queue, Event, get_job, has_id, store, ok, update_where, any_row, emit}
use carve.Queue.Rows.{one_if, count_if, with_id, WellFormed, store_of_WellFormed}

abbrev pub IsRow : Job → List Job → Type 0
IsRow j [] = ⊥
IsRow j (k ∷ jobs) = (j ≡ k) ⊎ IsRow j jobs

pub count_of_row :
    (test : Job → Bool) (j : Job) (jobs : List Job)
    → IsRow j jobs
    → test j ≡ true
    → 1 ≤ count_if test jobs
count_of_row test j [] r h = absurd r
count_of_row test j (k ∷ jobs) (inl e) h = rw (← e, h) (omega arith)
count_of_row test j (k ∷ jobs) (inr r) h = omega (arith, count_of_row test j jobs r h)

pub row_has_id : (j : Job) (jobs : List Job) → IsRow j jobs → has_id j.id jobs ≡ true
unfolding has_id
row_has_id j [] r = absurd r
row_has_id j (k ∷ jobs) (inl e) = rw (← e) (ground arith)
row_has_id j (k ∷ jobs) (inr r) = ground (arith, row_has_id j jobs r)

abbrev IdsOnce : List Job → Type 0
IdsOnce jobs = (id : String) → count_if (with_id id) jobs ≤ 1

-- The id finds the row, since no other row has it.
pub get_job_of_row :
    (j : Job) (jobs : List Job) → IdsOnce jobs → IsRow j jobs → get_job j.id jobs ≡ some j
unfolding get_job
get_job_of_row j [] o r = absurd r
get_job_of_row j (k ∷ jobs) o (inl e) = rw (← e) (ground arith)
get_job_of_row j (k ∷ jobs) o (inr r) = ground (
  arith,
  o j.id,
  count_of_row (with_id j.id) j jobs r (ground arith),
  get_job_of_row j jobs (λ id. omega (arith, o id)) r,
)

pub IsRow-of_get_job :
    (id : String) (jobs : List Job) (j : Job)
    → get_job id jobs ≡ some j
    → IsRow j jobs × (j.id ≡ id)
unfolding get_job
IsRow-of_get_job id [] j h = absurd (cc)
IsRow-of_get_job id (k ∷ jobs) j h = elim (Bool-cases (k.id == id)) [
  | inl y ↦ (inl (ground arith), ground arith)
  | inr n ↦ let (r, e) = IsRow-of_get_job id jobs j (ground arith) in (inr r, e)
]

update_where_absent :
    (test : Job → Bool) (f : Job → Job) (jobs : List Job)
    → any_row test jobs ≡ false
    → update_where test f jobs ≡ jobs
unfolding update_where any_row
update_where_absent test f [] h = refl
update_where_absent test f (j ∷ jobs) h = ground (arith, update_where_absent test f jobs)

pub update_where_none :
    (test : Job → Bool) (f : Job → Job) (jobs : List Job)
    → any_row test jobs ≡ false
    → update_where test f jobs ≡ jobs
update_where_none = update_where_absent

-- A test that only rows of one id pass.
abbrev pub OnlyId : String → (Job → Bool) → Type 0
OnlyId id test = (k : Job) → test k ≡ true → k.id ≡ id

any_row_other :
    (id : String) (test : Job → Bool) (jobs : List Job)
    → OnlyId id test
    → count_if (with_id id) jobs ≡ 0
    → any_row test jobs ≡ false
unfolding any_row
any_row_other id test [] only h = refl
any_row_other id test (j ∷ jobs) only h =
    ground (arith, only j, any_row_other id test jobs only (omega arith))

-- One row is replaced, so a count loses what the old row added and gains what the new one adds.
pub count-update_row :
    (count test : Job → Bool) (f : Job → Job) (j : Job) (jobs : List Job)
    → IdsOnce jobs
    → IsRow j jobs
    → OnlyId j.id test
    → test j ≡ true
    → count_if count (update_where test f jobs) + one_if (count j)
      ≡ count_if count jobs + one_if (count (f j))
unfolding update_where
count-update_row count test f j [] o r only h = absurd r
count-update_row count test f j (k ∷ jobs) o (inl e) only h =
    let rest = any_row_other j.id test jobs only (ground (arith, o j.id)) in
    rw (← e, h, update_where_absent test f jobs rest) (omega arith)
count-update_row count test f j (k ∷ jobs) o (inr r) only h =
    let other : test k ≡ false =
      ground (arith, only k, o j.id, count_of_row (with_id j.id) j jobs r (ground arith)) in
    rw other
      (omega (arith, count-update_row count test f j jobs (λ id. omega (arith, o id)) r only h))

pub any_row_of_row :
    (test : Job → Bool) (j : Job) (jobs : List Job)
    → IsRow j jobs
    → test j ≡ true
    → any_row test jobs ≡ true
unfolding any_row
any_row_of_row test j [] r h = absurd r
any_row_of_row test j (k ∷ jobs) (inl e) h = rw (← e, h)
any_row_of_row test j (k ∷ jobs) (inr r) h = ground (arith, any_row_of_row test j jobs r h)

-- A row that the test passes, or the news that there is none.
pub IsRow-of_any :
    (test : Job → Bool) (jobs : List Job)
    → any_row test jobs ≡ true
    → (j : Job) × IsRow j jobs × (test j ≡ true)
unfolding any_row
IsRow-of_any test [] h = absurd (cc)
IsRow-of_any test (j ∷ jobs) h = elim (Bool-cases (test j)) [
  | inl y ↦ (j, inl refl, y)
  | inr n ↦ let (k, r, t) = IsRow-of_any test jobs (ground arith) in (k, inr r, t)
]

-- After an UPDATE that keeps ids the id finds the new row.
pub get_job-update_where :
    (id : String) (test : Job → Bool) (f : Job → Job) (jobs : List Job)
    → ((k : Job) → (f k).id ≡ k.id)
    → (j : Job) → get_job id jobs ≡ some j
    → get_job id (update_where test f jobs) ≡ some (if test j then f j else j)
unfolding get_job update_where
get_job-update_where id test f [] keep j h = absurd (cc)
get_job-update_where id test f (k ∷ jobs) keep j h =
    ground (arith, keep k, get_job-update_where id test f jobs keep j)

pub jobs-emit : (e : Event) (q : Queue) → (emit e q).jobs ≡ q.jobs
unfolding emit
jobs-emit e q = ground arith

pub IsRow-append : (j : Job) (jobs : List Job) → IsRow j (jobs ++ (j ∷ []))
IsRow-append j [] = inl refl
IsRow-append j (k ∷ jobs) = inr (IsRow-append j jobs)

-- Over unique ids a test that only one id passes has the value that it has at that row.
pub any_row_by_id :
    (id : String) (test : Job → Bool) (j : Job) (jobs : List Job)
    → IdsOnce jobs
    → OnlyId id test
    → get_job id jobs ≡ some j
    → any_row test jobs ≡ test j
any_row_by_id id test j jobs o only g =
    let (row, same) = IsRow-of_get_job id jobs j g in
    elim (Bool-cases (test j)) [
      | inl y ↦ any_row_of_row test j jobs row y ∙ sym y
      | inr n ↦ elim (Bool-cases (any_row test jobs)) [
        | inr none_left ↦ none_left ∙ sym n
        | inl found ↦
            let (k, r, t) = IsRow-of_any test jobs found in
            let other : get_job id jobs ≡ some k = rw (only k t) at (get_job_of_row k jobs o r) in
            absurd (ground (arith, other, g))
      ]
    ]

-- With all rows stored and nothing to change an UPDATE is no event.
pub store_unchanged :
    (test : Job → Bool) (f : Job → Job) (jobs : List Job)
    → WellFormed jobs
    → any_row test jobs ≡ false
    → store (update_where test f jobs) ≡ ok jobs
store_unchanged test f jobs w n = rw (update_where_none test f jobs n) (store_of_WellFormed jobs w)
