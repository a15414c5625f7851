-- ===== src/Common/Dict.antt =====
-- Python's `dict` with text keys, as its entries in insertion order.
use carve.Common.{
  String, Option, none, some, List, [], ◌∷◌, ◌≡◌, refl, ◌==◌, string_eq, if◌then◌else◌, arith,
  contains, is_some,
}

abbrev pub Dict {ℓ} : Type ℓ → Type ℓ
Dict V = List (String × V)

module _ {ℓ} {V : Type ℓ} where
  -- d.get(k)
  unfoldable pub lookup : String → Dict V → Option V
  lookup k [] = none
  lookup k ((j, v) ∷ d) = if k == j then some v else lookup k d

  -- d[k] = v keeps the place of a key that is there
  unfoldable pub insert : String → V → Dict V → Dict V
  insert k v [] = (k, v) ∷ []
  insert k v ((j, w) ∷ d) = if k == j then (k, v) ∷ d else (j, w) ∷ insert k v d

  unfoldable pub keys : Dict V → List String
  keys [] = []
  keys ((k, v) ∷ d) = k ∷ keys d

  pub lookup-insert :
      (j k : String) (v : V) (d : Dict V)
      → lookup j (insert k v d) ≡ (if j == k then some v else lookup j d)
  unfolding lookup insert
  lookup-insert j k v [] = refl
  lookup-insert j k v ((i, w) ∷ d) = ground (arith, lookup-insert j k v d)

  pub keys-lookup : (k : String) (d : Dict V) → contains (keys d) k ≡ is_some (lookup k d)
  unfolding keys lookup
  keys-lookup k [] = refl
  keys-lookup k ((j, v) ∷ d) = ground (arith, keys-lookup k d)
