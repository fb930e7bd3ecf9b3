-- ===== src/Prelude/Bits.antt =====
-- Facts about `bit_and` and `bit_or` at variables: a mask of four ones is a remainder, and `or` of
-- numbers with no common digits is their sum.
use Prim.Native.Nat.{
  ℕ, zero, suc, ◌+◌, ◌*◌, ◌/◌, ◌%◌, ◌^◌, ◌≤◌, ◌<◌, min, max, bit_and, bit_or, digits,
  bit_and-bitwise, bit_or-bitwise,
}
use mathlib.Core.Path.{◌≡◌, refl, ap, sym, ◌∙◌}
use native.Mathlib.Nat.{pow-suc, pow-zero}
use native.Mathlib.Omega.{arith}

-- Both operations run through the binary digits of their first argument.
module _ (last : ℕ → ℕ) (digit : ℕ → ℕ → ℕ) where
  no_digits : (n b : ℕ) → digits last digit n 0 b ≡ last b
  no_digits zero b = refl
  no_digits (suc n) b = refl

  enough_digits : (a m n b : ℕ) → a ≤ m → a ≤ n → digits last digit m a b ≡ digits last digit n a b
  enough_digits zero m n b h k = no_digits m b ∙ sym (no_digits n b)
  enough_digits (suc a) zero n b h k = absurd (omega arith)
  enough_digits (suc a) (suc m) zero b h k = absurd (omega arith)
  enough_digits (suc a) (suc m) (suc n) b h k =
      let halves = enough_digits (suc a / 2) m n (b / 2) (omega arith) (omega arith) in
      omega (arith, halves)

  -- the digits of a number by those of its half
  one_digit :
      ((b : ℕ) → last b ≡ last (b / 2) * 2 + digit 0 (b % 2))
      → (a b : ℕ)
      → digits last digit a a b
        ≡ digits last digit (a / 2) (a / 2) (b / 2) * 2 + digit (a % 2) (b % 2)
  one_digit law zero b = law b
  one_digit law (suc a) b =
      omega (arith, enough_digits (suc a / 2) a (suc a / 2) (b / 2) (omega arith) (omega arith))

-- Induction by halving.
halved_below : (P : ℕ → Type 0) → P 0 → ((a : ℕ) → P (a / 2) → P a) → (n a : ℕ) → a ≤ n → P a
halved_below P base step n zero h = base
halved_below P base step zero (suc a) h = absurd (omega arith)
halved_below P base step (suc n) (suc a) h =
    step (suc a) (halved_below P base step n (suc a / 2) (omega arith))

halved : (P : ℕ → Type 0) → P 0 → ((a : ℕ) → P (a / 2) → P a) → (a : ℕ) → P a
halved P base step a = halved_below P base step a a (omega arith)

or_digit : (a b : ℕ) → bit_or a b ≡ bit_or (a / 2) (b / 2) * 2 + max (a % 2) (b % 2)
or_digit a b =
    bit_or-bitwise a b
    ∙ one_digit (λ b. b) max (λ b. omega arith) a b
    ∙ ap (λ x. x * 2 + max (a % 2) (b % 2)) (sym (bit_or-bitwise (a / 2) (b / 2)))

and_digit : (a b : ℕ) → bit_and a b ≡ bit_and (a / 2) (b / 2) * 2 + min (a % 2) (b % 2)
and_digit a b =
    bit_and-bitwise a b
    ∙ one_digit (λ b. 0) min (λ b. omega arith) a b
    ∙ ap (λ x. x * 2 + min (a % 2) (b % 2)) (sym (bit_and-bitwise (a / 2) (b / 2)))

or_nothing : (a : ℕ) → bit_or a 0 ≡ a
or_nothing = halved (λ a. bit_or a 0 ≡ a) refl (λ a h. omega (arith, or_digit a 0, h))

and_nothing : (a : ℕ) → bit_and a 0 ≡ 0
and_nothing = halved (λ a. bit_and a 0 ≡ 0) refl (λ a h. omega (arith, and_digit a 0, h))

pub bit_or_disjoint : (n a b : ℕ) → b < 2 ^ n → bit_or (a * 2 ^ n) b ≡ a * 2 ^ n + b
bit_or_disjoint zero a b h =
    let none_left : b ≡ 0 = omega (arith, pow-zero 2) in
    rw none_left (omega (arith, or_nothing (a * 2 ^ 0)))
bit_or_disjoint (suc n) a b h =
    let split : a * 2 ^ suc n ≡ a * 2 ^ n * 2 =
      omega (arith, ap (λ (t : ℕ). a * t) (pow-suc 2 n)) in
    let half : a * 2 ^ n * 2 / 2 ≡ a * 2 ^ n = omega arith in
    rw (split, or_digit (a * 2 ^ n * 2) b, half)
      (omega (arith, bit_or_disjoint n a (b / 2) (omega (arith, pow-suc 2 n))))

-- Four digits of the mask, and then none.
pub bit_and_fifteen : (a : ℕ) → bit_and a 15 ≡ a % 16
bit_and_fifteen a =
    let b = a / 2 in
    let c = b / 2 in
    let d = c / 2 in
    omega (arith, and_digit a 15, and_digit b 7, and_digit c 3, and_digit d 1, and_nothing (d / 2))
