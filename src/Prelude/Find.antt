-- ===== src/Prelude/Find.antt =====
-- Searching a list: a predicate on its elements, the array methods `some`, `every`, `filter`
-- and `find`, and a predicate that holds of all its elements.
use Prim.Native.Nat.{ℕ, suc, ◌≤◌}
use mathlib.Core.Bool.{Bool, true, false, ◌&&◌, ◌||◌}
use mathlib.Core.Option.{Option, none, some}
use mathlib.Core.List.{List, [], ◌∷◌, ◌++◌}
use native.Mathlib.Omega.{arith}
use vr_poker.Prelude.Tests.{◌==◌, if◌then◌else◌}
use vr_poker.Prelude.Lists.{length}

module _ {ℓ} {A : Type ℓ} where
  abbrev pub some_of : (A → Bool) → List A → Bool
  some_of p [] = false
  some_of p (x ∷ xs) = p x || some_of p xs

  abbrev pub every : (A → Bool) → List A → Bool
  every p [] = true
  every p (x ∷ xs) = p x && every p xs

  abbrev pub keep : (A → Bool) → List A → List A
  keep p [] = []
  keep p (x ∷ xs) = let rest = keep p xs in if p x then x ∷ rest else rest

  abbrev pub find : (A → Bool) → List A → Option A
  find p [] = none
  find p (x ∷ xs) = let rest = find p xs in if p x then some x else rest

  abbrev pub find_index : (A → Bool) → List A → Option ℕ
  find_index p [] = none
  find_index p (x ∷ xs) = elim (p x) [
    | true ↦ some 0
    | false ↦ elim (find_index p xs) [ none ↦ none | some i ↦ some (suc i) ]
  ]

  abbrev pub All {κ} : (A → Type κ) → List A → Type κ
  All P [] = Unit
  All P (x ∷ xs) = P x × All P xs

  pub All-append {κ} : (P : A → Type κ) (xs ys : List A) → All P xs → All P ys → All P (xs ++ ys)
  All-append P [] ys hx hy = hy
  All-append P (x ∷ xs) ys hx hy = (hx.0, All-append P xs ys hx.1 hy)

  pub length-keep-le : (p : A → Bool) (xs : List A) → length (keep p xs) ≤ length xs
  length-keep-le p [] = omega arith
  length-keep-le p (x ∷ xs) = ground (arith, length-keep-le p xs)

abbrev pub member : ℕ → List ℕ → Bool
member a [] = false
member a (x ∷ xs) = x == a || member a xs

-- `[...new Set(xs)]`: the first of equal numbers stays.
abbrev pub insert_new : ℕ → List ℕ → List ℕ
insert_new a [] = a ∷ []
insert_new a (x ∷ xs) = let rest = insert_new a xs in if x == a then x ∷ xs else x ∷ rest

abbrev pub dedupe_into : List ℕ → List ℕ → List ℕ
dedupe_into seen [] = seen
dedupe_into seen (x ∷ xs) = dedupe_into (insert_new x seen) xs

abbrev pub dedupe : List ℕ → List ℕ
dedupe = dedupe_into []
