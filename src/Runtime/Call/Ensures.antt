-- ===== src/Runtime/Call/Ensures.antt =====
-- What a call leaves, whether it returns or raises, in the store that processes share.
use carve.Common.{false, ◌≡◌, inl, inr, Bool-cases}
use carve.Queue.Table.{QueueError, Result, ok, err}
use carve.Runtime.Store.{Store}
use carve.Runtime.Call.{
  Site, Raised, Reply, replied, threw, Call, World, committed, transaction, attempt, ◌>>=◌,
  suppress,
}

-- A reply that returns meets `P`, and one that raises meets `E`.
pub data Ensures {A : Type 0} (P : A → Store → Type 0) (E : Store → Type 0) : Reply A → Type 0 where
  returns : {a : A} {s : Store} → P a s → Ensures P E (replied a s)
  raises : {e : Raised} {s : Store} → E s → Ensures P E (threw e s)

-- The result of a transaction meets `P`; where it raises, `E` holds.
pub data Commits {A : Type 0} (P : A → Store → Type 0) (E : Type 0)
    : Result (A × Store) → Type 0 where
  commits : {a : A} {s : Store} → P a s → Commits P E (ok (a, s))
  aborts : {e : QueueError} → E → Commits P E (err e)

module _ {A : Type 0} {P : A → Store → Type 0} {E : Store → Type 0} where
  pub Ensures-committed :
      (s : Store) (r : Result (A × Store)) → Commits P (E s) r → Ensures P E (committed s r)
  unfolding committed
  Ensures-committed s _ (commits h) = returns h
  Ensures-committed s _ (aborts h) = raises h

  -- What the other processes keep is there when the transaction starts.
  pub Ensures-transaction :
      (w : World) (site : Site) (f : Store → Result (A × Store)) (s : Store)
      → E (w.others site s)
      → Commits P (E (w.others site s)) (f (w.others site s))
      → Ensures P E (transaction w site f s)
  unfolding transaction
  Ensures-transaction w site f s pre h = elim (Bool-cases (w.down site)) [
    | inl fails ↦ rw fails (raises pre)
    | inr works ↦ rw works (Ensures-committed (w.others site s) (f (w.others site s)) h)
  ]

module _ {A : Type 0} {P : A → Store → Type 0} where
  -- A transaction that the database answers and that commits does not raise.
  pub Ensures-working :
      (w : World) (site : Site) (f : Store → Result (A × Store)) (s : Store)
      → w.down site ≡ false
      → Commits P ⊥ (f (w.others site s))
      → Ensures P (λ s'. ⊥) (transaction w site f s)
  unfolding transaction
  Ensures-working w site f s works h =
      rw works (Ensures-committed {E = λ s'. ⊥} (w.others site s) (f (w.others site s)) h)

module _ {A B : Type 0} {P : A → Store → Type 0} {E : Store → Type 0} {Q : B → Store → Type 0}
    {F : Store → Type 0} where
  pub Ensures-attempt :
      (body : Call A) (handler : Raised → Call B) (go_on : A → Call B) (s : Store)
      → Ensures P E (body s)
      → ((e : Raised) (s' : Store) → E s' → Ensures Q F (handler e s'))
      → ((a : A) (s' : Store) → P a s' → Ensures Q F (go_on a s'))
      → Ensures Q F (attempt body handler go_on s)
  unfolding attempt
  Ensures-attempt body handler go_on s h bad good = by_reply (body s) h
    where
      by_reply :
          (r : Reply A)
          → Ensures P E r
          → Ensures Q F (elim r [ replied a s' ↦ go_on a s' | threw e s' ↦ handler e s' ])
      by_reply (replied a s') (returns k) = good a s' k
      by_reply (threw e s') (raises k) = bad e s' k

module _ {A B : Type 0} {P : A → Store → Type 0} {E : Store → Type 0} {Q : B → Store → Type 0} where
  pub Ensures-bind :
      (body : Call A) (go_on : A → Call B) (s : Store)
      → Ensures P E (body s)
      → ((a : A) (s' : Store) → P a s' → Ensures Q E (go_on a s'))
      → Ensures Q E ((body >>= go_on) s)
  unfolding ◌>>=◌
  Ensures-bind body go_on s h good = Ensures-attempt body _ go_on s h (λ e s' bad. raises bad) good

module _ {A : Type 0} {P : A → Store → Type 0} {E Q : Store → Type 0} where
  pub Ensures-suppress :
      (body : Call A) (s : Store)
      → Ensures P E (body s)
      → ((a : A) (s' : Store) → P a s' → Q s')
      → ((s' : Store) → E s' → Q s')
      → Ensures (λ _ s'. Q s') (λ _. ⊥) (suppress body s)
  unfolding suppress
  Ensures-suppress body s h good bad =
      Ensures-attempt body _ _ s h (λ e s' b. returns (bad s' b)) (λ a s' g. returns (good a s' g))

module _ {A : Type 0} {P P' : A → Store → Type 0} {E E' : Store → Type 0} where
  pub Ensures-mono :
      (r : Reply A)
      → Ensures P E r
      → ((a : A) (s : Store) → P a s → P' a s)
      → ((s : Store) → E s → E' s)
      → Ensures P' E' r
  Ensures-mono (replied a s) (returns h) good bad = returns (good a s h)
  Ensures-mono (threw e s) (raises h) good bad = raises (bad s h)

module _ {A : Type 0} {P : A → Store → Type 0} {E : Store → Type 0} where
  pub ensured : {a : A} {s : Store} → Ensures P E (replied a s) → P a s
  ensured (returns h) = h

module _ {A : Type 0} {P : A → Store → Type 0} {E : Type 0} where
  -- A transaction that cannot raise by itself.
  pub never_aborts : {r : Result (A × Store)} → Commits P ⊥ r → Commits P E r
  never_aborts (commits h) = commits h
  never_aborts (aborts h) = absurd h
