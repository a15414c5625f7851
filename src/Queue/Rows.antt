-- ===== src/Queue/Rows.antt =====
-- Counting the rows of the `jobs` table, and what an UPDATE does to a count.
use carve.Common.{
  ℕ, ◌+◌, ◌≤◌, String, Bool, true, false, List, [], ◌∷◌, ◌++◌, ◌≡◌, refl, ◌||◌, ◌&&◌, arith, ◌⊎◌,
  inl, inr, string_eq, nat_eq, ◌==◌,
}
use carve.Queue.Table.{
  Job, Status, is_queued, is_running, in_slot, occupied, index_holds, has_id, ids_differ, store, ok,
  err, integrity_error, update_where,
}

abbrev pub one_if : Bool → ℕ
one_if true = 1
one_if false = 0

abbrev pub count_if : (Job → Bool) → List Job → ℕ
count_if test [] = 0
count_if test (j ∷ jobs) = one_if (test j) + count_if test jobs

-- The rows of an index in one slot, and the rows with one id.
abbrev pub in_index : (Status → Bool) → String → ℕ → Job → Bool
in_index at pipeline tenant_id j = at j.status && in_slot pipeline tenant_id j

abbrev pub with_id : String → Job → Bool
with_id id j = j.id == id

-- What the primary key and the two partial unique indexes promise.
pub record WellFormed (jobs : List Job) : Type 0 where
  pub ids_once : (id : String) → count_if (with_id id) jobs ≤ 1
  pub queued_once : (p : String) (t : ℕ) → count_if (in_index is_queued p t) jobs ≤ 1
  pub running_once : (p : String) (t : ℕ) → count_if (in_index is_running p t) jobs ≤ 1

pub count_of_occupied :
    (at : Status → Bool) (p : String) (t : ℕ) (jobs : List Job)
    → occupied at p t jobs ≡ true
    → 1 ≤ count_if (in_index at p t) jobs
unfolding occupied
count_of_occupied at p t [] h = cc
count_of_occupied at p t (j ∷ jobs) h = ground (arith, count_of_occupied at p t jobs)

pub count_of_free :
    (at : Status → Bool) (p : String) (t : ℕ) (jobs : List Job)
    → occupied at p t jobs ≡ false
    → count_if (in_index at p t) jobs ≡ 0
unfolding occupied
count_of_free at p t [] h = refl
count_of_free at p t (j ∷ jobs) h = ground (arith, count_of_free at p t jobs)

index-once :
    (at : Status → Bool) (p : String) (t : ℕ) (jobs : List Job)
    → index_holds at jobs ≡ true
    → count_if (in_index at p t) jobs ≤ 1
unfolding index_holds
index-once at p t [] h = omega arith
index-once at p t (j ∷ jobs) h = ground (
  arith,
  index-once at p t jobs,
  count_of_free at p t jobs,
  count_of_free at j.pipeline j.tenant_id jobs,
)

index_of_once :
    (at : Status → Bool) (jobs : List Job)
    → ((p : String) (t : ℕ) → count_if (in_index at p t) jobs ≤ 1)
    → index_holds at jobs ≡ true
unfolding index_holds
index_of_once at [] h = refl
index_of_once at (j ∷ jobs) h = ground (
  arith,
  h j.pipeline j.tenant_id,
  count_of_occupied at j.pipeline j.tenant_id jobs,
  index_of_once at jobs (λ p t. omega (arith, h p t)),
)

pub count_of_id :
    (id : String) (jobs : List Job) → has_id id jobs ≡ true → 1 ≤ count_if (with_id id) jobs
unfolding has_id
count_of_id id [] h = cc
count_of_id id (j ∷ jobs) h = ground (arith, count_of_id id jobs)

pub count_of_no_id :
    (id : String) (jobs : List Job) → has_id id jobs ≡ false → count_if (with_id id) jobs ≡ 0
unfolding has_id
count_of_no_id id [] h = refl
count_of_no_id id (j ∷ jobs) h = ground (arith, count_of_no_id id jobs)

ids-once : (id : String) (jobs : List Job) → ids_differ jobs ≡ true → count_if (with_id id) jobs ≤ 1
unfolding ids_differ
ids-once id [] h = omega arith
ids-once id (j ∷ jobs) h = ground (arith, ids-once id jobs, count_of_no_id j.id jobs)

ids_of_once :
    (jobs : List Job) → ((id : String) → count_if (with_id id) jobs ≤ 1) → ids_differ jobs ≡ true
unfolding ids_differ
ids_of_once [] h = refl
ids_of_once (j ∷ jobs) h =
    ground (arith, h j.id, count_of_id j.id jobs, ids_of_once jobs (λ id. omega (arith, h id)))

pub store_of_WellFormed : (jobs : List Job) → WellFormed jobs → store jobs ≡ ok jobs
unfolding store
store_of_WellFormed jobs w = rw (
  ids_of_once jobs w.ids_once,
  index_of_once is_queued jobs w.queued_once,
  index_of_once is_running jobs w.running_once,
)

pub WellFormed-of_store :
    (jobs jobs' : List Job) → store jobs ≡ ok jobs' → (jobs' ≡ jobs) × WellFormed jobs
unfolding store
WellFormed-of_store jobs jobs' h = (
  ground arith,
  record {
    ids_once = λ id. ids-once id jobs (ground arith);
    queued_once = λ p t. index-once is_queued p t jobs (ground arith);
    running_once = λ p t. index-once is_running p t jobs (ground arith);
  },
)

-- A row that the UPDATE changes counts no more than before.
pub count-update_where-le :
    (count : Job → Bool) (test : Job → Bool) (f : Job → Job) (jobs : List Job)
    → ((j : Job) → test j ≡ true → one_if (count (f j)) ≤ one_if (count j))
    → count_if count (update_where test f jobs) ≤ count_if count jobs
unfolding update_where
count-update_where-le count test f [] h = omega arith
count-update_where-le count test f (j ∷ jobs) h =
    ground (arith, h j, count-update_where-le count test f jobs h)

pub count-append :
    (count : Job → Bool) (jobs : List Job) (j : Job)
    → count_if count (jobs ++ (j ∷ [])) ≡ count_if count jobs + one_if (count j)
count-append count [] j = omega arith
count-append count (k ∷ jobs) j = omega (arith, count-append count jobs j)

pub store-cases : (jobs : List Job) → (store jobs ≡ ok jobs) ⊎ (store jobs ≡ err integrity_error)
unfolding store
store-cases jobs = ground arith

pub not_stored : (jobs : List Job) → ¬ (WellFormed jobs) → store jobs ≡ err integrity_error
not_stored jobs n = elim (store-cases jobs) [
  | inl y ↦ absurd (n (WellFormed-of_store jobs jobs y).1)
  | inr e ↦ e
]

pub occupied-append :
    (at : Status → Bool) (p : String) (t : ℕ) (jobs : List Job) (j : Job)
    → occupied at p t (jobs ++ (j ∷ [])) ≡ (occupied at p t jobs || in_index at p t j)
unfolding occupied
occupied-append at p t [] j = ground arith
occupied-append at p t (k ∷ jobs) j = ground (arith, occupied-append at p t jobs j)

-- An UPDATE keeps the table well formed if it keeps ids and puts no row into an index's slot.
module _ (test : Job → Bool) (f : Job → Job) (jobs : List Job) where
  abbrev pub NoneAdded : (Status → Bool) → Type 0
  NoneAdded at =
      (p : String) (t : ℕ) (k : Job)
      → test k ≡ true
      → one_if (in_index at p t (f k)) ≤ one_if (in_index at p t k)

  pub update_where-WellFormed :
      WellFormed jobs
      → ((k : Job) → (f k).id ≡ k.id)
      → NoneAdded is_queued
      → NoneAdded is_running
      → WellFormed (update_where test f jobs)
  update_where-WellFormed w keep nq nr = record {
    ids_once = λ id. omega (
      arith,
      w.ids_once id,
      count-update_where-le (with_id id) test f jobs (λ k _. rw keep (omega arith)),
    );
    queued_once = λ p t. omega (
      arith,
      w.queued_once p t,
      count-update_where-le (in_index is_queued p t) test f jobs (nq p t),
    );
    running_once = λ p t. omega (
      arith,
      w.running_once p t,
      count-update_where-le (in_index is_running p t) test f jobs (nr p t),
    );
  }
