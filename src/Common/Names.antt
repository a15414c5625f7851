-- ===== src/Common/Names.antt =====
-- Finite sets of names (`frozenset[str]`) as lists: union is `++`, and two filters.
use carve.Common.{
  ℕ, ◌+◌, String, ◌≡◌, refl, Bool, true, ◌&&◌, ◌||◌, not, List, [], ◌∷◌, ◌++◌, arith, contains,
  string_eq, if◌then◌else◌,
}

-- a - b
unfoldable pub without : List String → List String → List String
without [] b = []
without (x ∷ a) b = let rest = without a b in if contains b x then rest else x ∷ rest

-- a & b
unfoldable pub both : List String → List String → List String
both [] b = []
both (x ∷ a) b = let rest = both a b in if contains b x then x ∷ rest else rest

pub contains-append :
    (a b : List String) (x : String) → contains (a ++ b) x ≡ (contains a x || contains b x)
contains-append [] b x = refl
contains-append (y ∷ a) b x = ground (arith, contains-append a b x)

pub contains-without :
    (a b : List String) (x : String)
    → contains (without a b) x ≡ (contains a x && not (contains b x))
unfolding without
contains-without [] b x = refl
contains-without (y ∷ a) b x = ground (arith, contains-without a b x)

pub contains-both :
    (a b : List String) (x : String) → contains (both a b) x ≡ (contains a x && contains b x)
unfolding both
contains-both [] b x = refl
contains-both (y ∷ a) b x = ground (arith, contains-both a b x)

pub ruleset name_laws = (contains-append, contains-without, contains-both)

-- A check of two constant sets that runs, and what it says.
unfoldable pub subset : List String → List String → Bool
subset [] b = true
subset (x ∷ a) b = contains b x && subset a b

pub contains_of_subset :
    (a b : List String) (x : String) → subset a b ≡ true → contains a x ≡ true → contains b x ≡ true
unfolding subset
contains_of_subset [] b x h m = cc
contains_of_subset (y ∷ a) b x h m = ground (arith, contains_of_subset a b x)

unfoldable pub all_names : (String → Bool) → List String → Bool
all_names p [] = true
all_names p (x ∷ xs) = p x && all_names p xs

pub all_names_sound :
    (p : String → Bool) (xs : List String) (x : String)
    → all_names p xs ≡ true
    → contains xs x ≡ true
    → p x ≡ true
unfolding all_names
all_names_sound p [] x h m = cc
all_names_sound p (y ∷ xs) x h m = ground (arith, all_names_sound p xs x)

-- How many entries of a list are not done.
unfoldable pub open_count : List String → List String → ℕ
open_count done [] = 0
open_count done (x ∷ xs) = (if contains done x then 0 else 1) + open_count done xs
