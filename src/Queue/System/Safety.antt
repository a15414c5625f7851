-- ===== src/Queue/System/Safety.antt =====
-- What holds in every history of the job queue (src/carve/core/state/job_queue.py).
use carve.Common.{String, Option, ◌≡◌, ◌≢◌, refl, ◌∙◌, ◌⊎◌, inl, inr}
use carve.Queue.Table.{Queue, Status, ok}
use carve.Queue.Rows.{WellFormed}
use carve.Queue.Life.{
  Phase, waiting, running_for, over, Life, stay, move, Move, arrive, take, start, end_claimed,
  end_running, give_up, lose,
}
use carve.Queue.Life.View.{view}
use carve.Queue.Transitions.{release_claim}
use carve.Queue.System.{Step, Reach, here, later}
use carve.Queue.System.Lives.{Course, lives_on, reopens, Step-Kept}

-- A job that is over has no move.
no_move : (s : Status) {before after : Phase} → Move before after → before ≡ over s → ⊥
no_move s arrive e = cc
no_move s (take w) e = cc
no_move s (start w) e = cc
no_move s (end_claimed w t h) e = cc
no_move s (end_running w t h) e = cc
no_move s (give_up o) e = cc
no_move s (lose o) e = cc

over_stays :
    (s : Status) (before after : Phase) → before ≡ over s → Life before after → after ≡ over s
over_stays s before after e (stay same) = same ∙ e
over_stays s before after e (move m) = absurd (no_move s m e)

-- A history in which a job that was over is released, and what follows.
abbrev pub Reopened : Queue → String → Status → Queue → Type 0
Reopened q id status q' =
    (r : Queue) × (r' : Queue) × Reach q r
    × (view r.jobs id ≡ over status)
    × (release_claim id r ≡ ok r')
    × Reach r' q'

abbrev OverOrReopened : Queue → String → Status → Queue → Type 0
OverOrReopened q id status q' = (view q'.jobs id ≡ over status) ⊎ Reopened q id status q'

stays_over :
    (q r q' : Queue) (id : String) (status : Status)
    → Reach q r
    → view r.jobs id ≡ over status
    → Course id r q'
    → OverOrReopened q id status q'
stays_over q r q' id status reach there (lives_on life) = inl (over_stays status _ _ there life)
stays_over q r q' id status reach there (reopens s was waits released) =
    inr (r, q', reach, there, released, here)

-- In every history of enqueues, claims, transitions, finishes, releases, beats and sweeps the table
-- stays well formed, and a job that is over keeps its status, unless `release_claim` was called for
-- it while it was over with that status: only such a release brings it back.
pub Reach-over :
    (q q' : Queue) (id : String) (status : Status)
    → WellFormed q.jobs
    → Reach q q'
    → view q.jobs id ≡ over status
    → WellFormed q'.jobs × ((view q'.jobs id ≡ over status) ⊎ Reopened q id status q')
Reach-over q q' id status w here e = (w, inl e)
Reach-over q q' id status w (later {r} reach step) e =
    let (formed, so_far) = Reach-over q r id status w reach e in
    let k = Step-Kept r q' formed step in
    (
      k.well_formed,
      elim so_far [
        | inl there ↦ stays_over q r q' id status reach there (k.courses id)
        | inr (a, b, first, was, released, next) ↦ inr (a, b, first, was, released, later next step)
      ],
    )

pub Reach-WellFormed : (q q' : Queue) → WellFormed q.jobs → Reach q q' → WellFormed q'.jobs
Reach-WellFormed q q' w here = w
Reach-WellFormed q q' w (later {r} reach step) =
    let k = Step-Kept r q' (Reach-WellFormed q r w reach) step in k.well_formed

-- The job is still its owner's, or it is over, or it waits.
abbrev LeavesTo : Phase → Phase → Type 0
LeavesTo mine after = (after ≡ mine) ⊎ (((s : Status) × (after ≡ over s)) ⊎ (after ≡ waiting))

leaves :
    (o : Option String) {before after : Phase}
    → Move before after
    → before ≡ running_for o
    → LeavesTo before after
leaves o arrive e = absurd (cc)
leaves o (take w) e = absurd (cc)
leaves o (start w) e = absurd (cc)
leaves o (end_claimed w t h) e = absurd (cc)
leaves o (end_running w t h) e = inr (inl (t, refl))
leaves o (give_up p) e = absurd (cc)
leaves o (lose p) e = inr (inr refl)

Life-leaves :
    (o : Option String) (before after : Phase)
    → before ≡ running_for o
    → Life before after
    → LeavesTo before after
Life-leaves o before after e (stay same) = inl same
Life-leaves o before after e (move m) = leaves o m e

-- A history that a job leaves its owner in.
abbrev pub WaitedBetween : Queue → String → Queue → Type 0
WaitedBetween q id q' = (r : Queue) × Reach q r × (view r.jobs id ≡ waiting) × Reach r q'

module _ (q : Queue) (id : String) (owner : Option String) (w : WellFormed q.jobs)
    (runs : view q.jobs id ≡ running_for owner) where
  abbrev Owned : Queue → Type 0
  Owned q' =
      (view q'.jobs id ≡ running_for owner)
      ⊎ (((s : Status) × (view q'.jobs id ≡ over s)) ⊎ WaitedBetween q id q')

  Owned-next : (r q' : Queue) → Reach q r → Step r q' → Course id r q' → Owned r → Owned q'
  Owned-next r q' reach step (lives_on life) (inl mine) = elim (Life-leaves owner _ _ mine life) [
    | inl same ↦ inl (same ∙ mine)
    | inr (inl ends) ↦ inr (inl ends)
    | inr (inr waits) ↦ inr (inr (q', later reach step, waits, here))
  ]
  Owned-next r q' reach step (lives_on life) (inr (inl (s, e))) =
      inr (inl (s, over_stays s _ _ e life))
  Owned-next r q' reach step (reopens t was waits released) (inl mine) = absurd (cc)
  Owned-next r q' reach step (reopens t was waits released) (inr (inl (s, e))) =
      inr (inr (q', later reach step, waits, here))
  Owned-next r q' reach step course (inr (inr (m, first, waits, next))) =
      inr (inr (m, first, waits, later next step))

  owned : (q' : Queue) → Reach q q' → Owned q'
  owned q' here = inl runs
  owned q' (later {r} reach step) =
      let k = Step-Kept r q' (Reach-WellFormed q r w reach) step in
      Owned-next r q' reach step (k.courses id) (owned r reach)

  -- If in a history a job that runs for one worker runs for another one later, then it was back in
  -- the queue in between: no job passes from one worker to another directly.
  pub handover_waits :
      (q' : Queue) (other : Option String)
      → Reach q q'
      → other ≢ owner
      → view q'.jobs id ≡ running_for other
      → WaitedBetween q id q'
  handover_waits q' other reach differs after = elim (owned q' reach) [
    | inl mine ↦ absurd (differs (cc))
    | inr (inl (s, e)) ↦ absurd (cc)
    | inr (inr between) ↦ between
  ]
