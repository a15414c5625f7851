-- ===== src/Queue/Claim.antt =====
-- `claim_next` of src/carve/core/state/job_queue.py: the oldest due job that this worker may run
-- and that no concurrent transaction has locked.
pub mod Oldest
pub mod Once
use carve.Common.{
  ℕ, String, Bool, true, false, Option, none, some, List, [], ◌∷◌, ◌||◌, ◌&&◌, not, leb, ltb,
  if◌then◌else◌, string_eq, nat_eq, ◌==◌,
}
use carve.Queue.Table.{
  Job, Queue, Result, ok, err, claimed, is_queued, job_claimed, store, emit, update_where, ◌>>=◌,
}

-- scheduled_for IS NULL OR scheduled_for <= :now
abbrev pub is_due : ℕ → Option ℕ → Bool
is_due now none = true
is_due now (some t) = leb t now

-- required_label IS NULL OR required_label = :worker_label, where a NULL equals nothing
abbrev pub label_matches : Option String → Option String → Bool
label_matches none worker_label = true
label_matches (some l) none = false
label_matches (some l) (some w) = l == w

-- The WHERE clause of the subquery; `locked` are the ids of rows that another transaction holds.
unfoldable pub claimable : (String → Bool) → Option String → ℕ → ℕ → Job → Bool
claimable locked worker_label tenant_id now j =
    (is_queued j.status && j.tenant_id == tenant_id)
    && ((is_due now j.scheduled_for && label_matches j.required_label worker_label)
        && not (locked j.id))

-- ORDER BY scheduled_for ASC NULLS LAST, created_at ASC: `a` comes strictly before `b`.
unfoldable pub before : Job → Job → Bool
before a b = elim a.scheduled_for [
  | none ↦ elim b.scheduled_for [ none ↦ ltb a.created_at b.created_at | some t ↦ false ]
  | some s ↦ elim b.scheduled_for [
    | none ↦ true
    | some t ↦ ltb s t || (s == t && ltb a.created_at b.created_at)
  ]
]

-- ORDER BY … LIMIT 1 over the rows that pass
unfoldable pub first_by_order : (Job → Bool) → List Job → Option Job
unfolding before
first_by_order test [] = none
first_by_order test (j ∷ jobs) =
    let rest = first_by_order test jobs in
    if test j
    then elim rest [ none ↦ some j | some k ↦ if before k j then some k else some j ]
    else rest

abbrev pub take_claim : String → ℕ → Job → Job
take_claim worker_id now j = record j {
  status = claimed;
  claimed_by = some worker_id;
  claimed_at = some now;
  heartbeat_at = some now;
}

unfoldable pub claim_next :
    (String → Bool) → String → Option String → ℕ → ℕ → Queue → Result (Option Job × Queue)
claim_next locked worker_id worker_label tenant_id now q =
    elim (first_by_order (claimable locked worker_label tenant_id now) q.jobs) [
      | none ↦ ok (none, q)
      | some j ↦ do
        jobs ← store (update_where (λ k. k.id == j.id) (take_claim worker_id now) q.jobs)
        ok (
          some (take_claim worker_id now j),
          emit (job_claimed j.id worker_id) (record q { jobs = jobs }),
        )
    ]
