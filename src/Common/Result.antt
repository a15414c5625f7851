-- ===== src/Common/Result.antt =====
-- Calls that may raise: Python's exceptions as values.
use carve.Common.{◌≡◌, refl, ◌⊎◌, inl, inr}

pub data Fallible {ℓ} (E : Type 0) (A : Type ℓ) : Type ℓ where
  err : E → Fallible E A
  ok : A → Fallible E A

module _ {ℓ κ} {E : Type 0} {A : Type ℓ} {B : Type κ} where
  infixl 5 ◌>>=◌
  -- The first exception ends the call.
  abbrev pub ◌>>=◌ : Fallible E A → (A → Fallible E B) → Fallible E B
  err raised >>= then_do = err raised
  ok value >>= then_do = then_do value

module _ {ℓ} {E : Type 0} {A : Type ℓ} where
  pub Fallible-cases : (r : Fallible E A) → ((e : E) × (r ≡ err e)) ⊎ ((a : A) × (r ≡ ok a))
  Fallible-cases (err e) = inl (e, refl)
  Fallible-cases (ok a) = inr (a, refl)
