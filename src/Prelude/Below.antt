-- ===== src/Prelude/Below.antt =====
-- Checking a test at every number below a bound, and at every element of a list.
use Prim.Native.Nat.{ℕ, zero, suc, ◌<◌}
use mathlib.Core.Path.{◌≡◌}
use mathlib.Core.Bool.{Bool, true, ◌&&◌}
use mathlib.Core.Option.{some}
use mathlib.Core.List.{List, [], ◌∷◌}
use native.Mathlib.Omega.{arith}
use vr_poker.Prelude.Lists.{get_elem?}
use vr_poker.Prelude.Find.{every}

unfoldable pub holds_below : (ℕ → Bool) → ℕ → Bool
holds_below test zero = true
holds_below test (suc n) = holds_below test n && test n

pub holds_below-at : (test : ℕ → Bool) (x n : ℕ) → holds_below test n ≡ true → x < n → test x ≡ true
unfolding holds_below
holds_below-at test x zero passed l = absurd (omega arith)
holds_below-at test x (suc n) passed l = ground (arith, holds_below-at test x n)

pub every_sound {ℓ} :
    {A : Type ℓ} (p : A → Bool) (xs : List A) (i : ℕ) {a : A}
    → every p xs ≡ true
    → get_elem? xs i ≡ some a
    → p a ≡ true
every_sound p [] i h g = cc
every_sound p (x ∷ xs) zero h g = ground arith
every_sound p (x ∷ xs) (suc i) h g = every_sound p xs i (ground arith) g
