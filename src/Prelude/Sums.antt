-- ===== src/Prelude/Sums.antt =====
-- Sums of a measure over a list.
use Prim.Native.Nat.{ℕ, zero, suc, ◌+◌}
use mathlib.Core.Path.{◌≡◌}
use mathlib.Core.Option.{some}
use mathlib.Core.List.{List, [], ◌∷◌, ◌++◌}
use native.Mathlib.Omega.{arith}
use vr_poker.Prelude.Lists.{get_elem?, set}

module _ {ℓ} {A : Type ℓ} where
  abbrev pub sum_of : (A → ℕ) → List A → ℕ
  sum_of f [] = 0
  sum_of f (x ∷ xs) = f x + sum_of f xs

  pub sum_of-append : (f : A → ℕ) (xs ys : List A) → sum_of f (xs ++ ys) ≡ sum_of f xs + sum_of f ys
  sum_of-append f [] ys = omega arith
  sum_of-append f (x ∷ xs) ys = omega (arith, sum_of-append f xs ys)

  -- A write moves the sum by the difference of the two values.
  pub sum_of-set :
      (f : A → ℕ) (xs : List A) (i : ℕ) (v : A) {a : A}
      → get_elem? xs i ≡ some a
      → sum_of f (set xs i v) + f a ≡ sum_of f xs + f v
  sum_of-set f [] i v h = cc
  sum_of-set f (x ∷ xs) zero v h = ground arith
  sum_of-set f (x ∷ xs) (suc i) v h = omega (arith, sum_of-set f xs i v h)
