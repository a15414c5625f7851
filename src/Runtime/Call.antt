-- ===== src/Runtime/Call.antt =====
-- Calls of the processes that share the state store (src/carve/runtime/worker.py and reaper.py): each
-- call of the store is one transaction. Before it the other processes may have changed the store in
-- any way, and it may fail with an exception of the database, which writes nothing.
pub mod Ensures
use carve.Common.{ℕ, String, Bool, true, false, Option, if◌then◌else◌}
use carve.Queue.Table.{QueueError, Result, ok, err}
use carve.Runtime.Store.{Store, NoValue, no_value}

-- The calls that a worker and the reaper make, by their place in the code.
pub data Site : Type 0 where
  at_claim at_create_run at_transition at_release at_cancel at_running at_execute : Site
  at_fail_run at_fail_job at_finish_run at_finish_job at_read_run : Site
  at_register at_unregister at_reclaim : Site
  at_orphan : String → Site
  at_beat at_stamp : ℕ → Site

pub data Raised : Type 0 where
  database_error : Site → Raised
  queue_error : QueueError → Raised
  execute_error : String → Raised

pub data Reply (A : Type 0) : Type 0 where
  replied : A → Store → Reply A
  threw : Raised → Store → Reply A

abbrev pub Call : Type 0 → Type 0
Call A = Store → Reply A

-- What surrounds a process: the other processes, the failures of the database and the clock.
pub record World : Type 0 where
  pub others : Site → Store → Store
  pub down : Site → Bool
  pub clock : Site → ℕ

module _ {A : Type 0} where
  abbrev pub give : A → Call A
  give a s = replied a s

  abbrev pub raise : Raised → Call A
  raise e s = threw e s

  unfoldable pub committed : Store → Result (A × Store) → Reply A
  committed s (ok (a, s')) = replied a s'
  committed s (err e) = threw (queue_error e) s

  unfoldable pub transaction : World → Site → (Store → Result (A × Store)) → Call A
  unfolding committed
  transaction w site f s =
      let now = w.others site s in
      if w.down site then threw (database_error site) now else committed now (f now)

module _ {A B : Type 0} where
  -- try: body; except: handler; else: go_on
  unfoldable pub attempt : Call A → (Raised → Call B) → (A → Call B) → Call B
  attempt body handler go_on s = elim (body s) [
    | replied a s' ↦ go_on a s'
    | threw e s' ↦ handler e s'
  ]

  infixl 5 ◌>>=◌
  unfoldable pub ◌>>=◌ : Call A → (A → Call B) → Call B
  unfolding attempt
  body >>= go_on = attempt body raise go_on

module _ {A : Type 0} where
  -- with contextlib.suppress(Exception), or a handler that only logs
  unfoldable pub suppress : Call A → Call NoValue
  unfolding attempt
  suppress body = attempt body (λ e. give no_value) (λ a. give no_value)
