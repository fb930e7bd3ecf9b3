-- ===== src/Evaluator/Value.antt =====
-- packages/core/src/evaluator.ts: the packed value orders hands by category and then by kickers.
use Prim.Native.Nat.{bit_or}
use native.Mathlib.Nat.{one-le-pow}
use vr_poker.Prelude.{
  ℕ, ◌+◌, ◌-◌, ◌*◌, ◌%◌, ◌^◌, ◌≤◌, ◌<◌, ◌≡◌, ◌⊎◌, inl, inr, List, [], ◌∷◌, arith, length, get_or,
  All,
}
use vr_poker.Prelude.Bits.{bit_or_disjoint, bit_and_fifteen}
use vr_poker.Evaluator.{padded, pack, hand_category}

or_below : (n a x k : ℕ) → x ≡ a * 2 ^ n → k < 2 ^ n → bit_or x k ≡ x + k
or_below n a x k e h = rw e (bit_or_disjoint n a k h)

-- Five nibbles placed one after the other under a category.
nibbles :
    (c a b d e f : ℕ)
    → a < 16
    → b < 16
    → d < 16
    → e < 16
    → f < 16
    → bit_or
        (bit_or (bit_or (bit_or (bit_or (c * 1048576) (a * 65536)) (b * 4096)) (d * 256)) (e * 16))
        (f * 1)
      ≡ c * 1048576 + a * 65536 + b * 4096 + d * 256 + e * 16 + f
nibbles c a b d e f ha hb hd he hf =
    rw
      (
        or_below 20 c (c * 1048576) (a * 65536) (omega arith) (omega arith),
        or_below 16 (c * 16 + a) (c * 1048576 + a * 65536) (b * 4096) (omega arith) (omega arith),
        or_below 12 (c * 256 + a * 16 + b) (c * 1048576 + a * 65536 + b * 4096) (d * 256)
            (omega arith) (omega arith),
        or_below 8 (c * 4096 + a * 256 + b * 16 + d) (c * 1048576 + a * 65536 + b * 4096 + d * 256)
            (e * 16) (omega arith) (omega arith),
        or_below 4 (c * 65536 + a * 4096 + b * 256 + d * 16 + e)
            (c * 1048576 + a * 65536 + b * 4096 + d * 256 + e * 16) (f * 1) (omega arith)
            (omega arith),
      )
      (omega arith)

-- The five kickers of a list, and the number that the value is.
abbrev kicker : List ℕ → ℕ → ℕ
kicker ks i = get_or (padded ks) i 0 % 16

abbrev packed_sum : ℕ → ℕ → ℕ → ℕ → ℕ → ℕ → ℕ
packed_sum c a b d e f = c * 1048576 + a * 65536 + b * 4096 + d * 256 + e * 16 + f

pack-sum :
    (c : ℕ) (ks : List ℕ)
    → pack c ks
      ≡ packed_sum (c % 16) (kicker ks 0) (kicker ks 1) (kicker ks 2) (kicker ks 3) (kicker ks 4)
unfolding pack
pack-sum c ks =
    rw
      (
        bit_and_fifteen c,
        bit_and_fifteen (get_or (padded ks) 0 0),
        bit_and_fifteen (get_or (padded ks) 1 0),
        bit_and_fifteen (get_or (padded ks) 2 0),
        bit_and_fifteen (get_or (padded ks) 3 0),
        bit_and_fifteen (get_or (padded ks) 4 0),
      )
      (nibbles (c % 16) (kicker ks 0) (kicker ks 1) (kicker ks 2) (kicker ks 3) (kicker ks 4)
        (omega arith) (omega arith) (omega arith) (omega arith) (omega arith))

-- The category of a packed value is the one that was packed.
pub hand_category-pack : (c : ℕ) (ks : List ℕ) → c < 16 → hand_category (pack c ks) ≡ c
unfolding hand_category
hand_category-pack c ks h = rw (pack-sum c ks, bit_and_fifteen) (omega arith)

-- A hand of a higher category has the higher value, whatever the kickers.
pub pack_category_mono : (c d : ℕ) (ks ls : List ℕ) → c < d → d < 16 → pack c ks < pack d ls
pack_category_mono c d ks ls h k = omega (arith, pack-sum c ks, pack-sum d ls)

-- The first of two equally long lists is the smaller one at the first place where they differ.
abbrev pub LexBelow : List ℕ → List ℕ → Type 0
LexBelow [] ls = ⊥
LexBelow (x ∷ ks) [] = ⊥
LexBelow (x ∷ ks) (y ∷ ls) = (x < y) ⊎ ((x ≡ y) × LexBelow ks ls)

abbrev Nibbles : List ℕ → Type 0
Nibbles = All (λ k. k < 16)

-- the digits of a list, in base 16, after those of `acc`
digits_from : ℕ → List ℕ → ℕ
digits_from acc [] = acc
digits_from acc (k ∷ ks) = digits_from (acc * 16 + k) ks

digits_from_mono :
    (m n : ℕ) (ks ls : List ℕ)
    → length ks ≡ length ls
    → Nibbles ks
    → m < n
    → digits_from m ks < digits_from n ls
unfolding digits_from
digits_from_mono m n [] [] e a h = h
digits_from_mono m n [] (l ∷ ls) e a h = absurd (omega arith)
digits_from_mono m n (k ∷ ks) [] e a h = absurd (omega arith)
digits_from_mono m n (k ∷ ks) (l ∷ ls) e a h =
    digits_from_mono (m * 16 + k) (n * 16 + l) ks ls (omega arith) a.1 (omega (arith, a.0))

digits_from_lex :
    (m : ℕ) (ks ls : List ℕ)
    → length ks ≡ length ls
    → Nibbles ks
    → LexBelow ks ls
    → digits_from m ks < digits_from m ls
unfolding digits_from
digits_from_lex m [] ls e a l = absurd l
digits_from_lex m (k ∷ ks) [] e a l = absurd l
digits_from_lex m (k ∷ ks) (x ∷ ls) e a (inl h) =
    digits_from_mono (m * 16 + k) (m * 16 + x) ks ls (omega arith) a.1 (omega arith)
digits_from_lex m (k ∷ ks) (x ∷ ls) e a (inr (same, l)) =
    rw same (digits_from_lex (m * 16 + x) ks ls (omega arith) a.1 l)

pack-digits :
    (c : ℕ) (ks : List ℕ)
    → length ks ≤ 5
    → Nibbles ks
    → pack c ks ≡ digits_from (c % 16) ks * 16 ^ (5 - length ks)
unfolding digits_from
pack-digits c [] h a = omega (arith, pack-sum c [])
pack-digits c (v ∷ []) h a = omega (arith, pack-sum c (v ∷ []), a)
pack-digits c (v ∷ w ∷ []) h a = omega (arith, pack-sum c (v ∷ w ∷ []), a)
pack-digits c (v ∷ w ∷ x ∷ []) h a = omega (arith, pack-sum c (v ∷ w ∷ x ∷ []), a)
pack-digits c (v ∷ w ∷ x ∷ y ∷ []) h a = omega (arith, pack-sum c (v ∷ w ∷ x ∷ y ∷ []), a)
pack-digits c (v ∷ w ∷ x ∷ y ∷ z ∷ []) h a = omega (arith, pack-sum c (v ∷ w ∷ x ∷ y ∷ z ∷ []), a)
pack-digits c (v ∷ w ∷ x ∷ y ∷ z ∷ u ∷ ks) h a = absurd (omega arith)

-- Within a category, of two hands with as many kickers, at most five of ranks below 16, the one
-- with the lower kicker at the first place where they differ has the lower value.
pub pack_kickers_mono :
    (c : ℕ) (ks ls : List ℕ)
    → length ks ≡ length ls
    → length ks ≤ 5
    → All (λ k. k < 16) ks
    → All (λ k. k < 16) ls
    → LexBelow ks ls
    → pack c ks < pack c ls
pack_kickers_mono c ks ls e h a b l =
    rw (pack-digits c ks h a, pack-digits c ls (rw (← e) h) b, ← e)
      (scale (16 ^ (5 - length ks)) (digits_from_lex (c % 16) ks ls e a l)
        (one-le-pow (5 - length ks) 16 (omega arith)))
  where
    scale : {m n : ℕ} (k : ℕ) → m < n → 0 < k → m * k < n * k
    scale k h p = grind arith
