-- ===== src/Prelude/Maps.antt =====
-- A `Map` with numbers for keys, as its entries in the order of insertion.
use Prim.Native.Nat.{ℕ, ◌+◌}
use mathlib.Core.Path.{◌≡◌, refl, sym, ◌∙◌, subst}
use mathlib.Core.Bool.{Bool, true, false}
use mathlib.Core.Option.{Option, none, some}
use mathlib.Core.List.{List, [], ◌∷◌}
use mathlib.Core.Logic.{inl, inr}
use native.Mathlib.Omega.{arith}
use vr_poker.Prelude.Sums.{sum_of}
use vr_poker.Prelude.Tests.{◌==◌, if◌then◌else◌, Bool-cases}

module _ {ℓ} {A : Type ℓ} where
  abbrev pub lookup_in : ℕ → List (ℕ × A) → Option A
  lookup_in k [] = none
  lookup_in k ((j, a) ∷ m) = let rest = lookup_in k m in if j == k then some a else rest

  abbrev pub write_in : ℕ → A → List (ℕ × A) → List (ℕ × A)
  write_in k b [] = (k, b) ∷ []
  write_in k b ((j, a) ∷ m) =
      let rest = write_in k b m in if j == k then (j, b) ∷ m else (j, a) ∷ rest

  abbrev pub erase_in : ℕ → List (ℕ × A) → List (ℕ × A)
  erase_in k [] = []
  erase_in k ((j, a) ∷ m) = let rest = erase_in k m in if j == k then m else (j, a) ∷ rest

  pub lookup_in-write_in :
      (k : ℕ) (b : A) (m : List (ℕ × A)) → lookup_in k (write_in k b m) ≡ some b
  lookup_in-write_in k b [] = ground arith
  lookup_in-write_in k b ((j, a) ∷ m) = ground (arith, lookup_in-write_in k b m)

  -- A write moves a sum over the values by the difference of the two.
  pub sum_of-write_in :
      (f : A → ℕ) (k : ℕ) (b : A) (m : List (ℕ × A)) {a : A}
      → lookup_in k m ≡ some a
      → sum_of (λ e. f e.1) (write_in k b m) + f a ≡ sum_of (λ e. f e.1) m + f b
  sum_of-write_in f k b [] e = absurd cc
  sum_of-write_in f k b ((j, c) ∷ m) {a} e = elim (Bool-cases (j == k)) [
    | inl y ↦ let first = rw y at e in let here : c ≡ a = cc in rw (y, here) (omega arith)
    | inr n ↦ let rest = rw n at e in rw n (omega (arith, sum_of-write_in f k b m rest))
  ]

module _ {ℓ} {A : Type ℓ} where
  abbrev pub is_free : Option A → Bool
  is_free none = true
  is_free (some a) = false

  -- No key stands in the map twice.
  abbrev pub Distinct : List (ℕ × A) → Type 0
  Distinct [] = Unit
  Distinct ((j, a) ∷ m) = (is_free (lookup_in j m) ≡ true) × Distinct m

  pub lookup_in-write_in_other :
      (j k : ℕ) (b : A) (m : List (ℕ × A))
      → (j == k) ≡ false
      → lookup_in k (write_in j b m) ≡ lookup_in k m
  lookup_in-write_in_other j k b [] d = ground (arith, d)
  lookup_in-write_in_other j k b ((i, a) ∷ m) d =
      ground (arith, d, lookup_in-write_in_other j k b m d)

  pub lookup_in-erase_in_other :
      (j k : ℕ) (m : List (ℕ × A)) → (j == k) ≡ false → lookup_in k (erase_in j m) ≡ lookup_in k m
  lookup_in-erase_in_other j k [] d = refl
  lookup_in-erase_in_other j k ((i, a) ∷ m) d = ground (arith, d, lookup_in-erase_in_other j k m d)

  pub lookup_in-erase_in :
      (k : ℕ) (m : List (ℕ × A)) → Distinct m → is_free (lookup_in k (erase_in k m)) ≡ true
  lookup_in-erase_in k [] d = refl
  lookup_in-erase_in k ((i, a) ∷ m) d = ground (arith, d.0, lookup_in-erase_in k m d.1)

  pub write_in-Distinct :
      (k : ℕ) (b : A) (m : List (ℕ × A)) → Distinct m → Distinct (write_in k b m)
  write_in-Distinct k b [] d = (refl, tt)
  write_in-Distinct k b ((i, a) ∷ m) d = elim (Bool-cases (i == k)) [
    | inl y ↦ rw y d
    | inr n ↦
        let same : lookup_in i (write_in k b m) ≡ lookup_in i m =
          lookup_in-write_in_other k i b m (ground (arith, n)) in
        rw n (rw same d.0, write_in-Distinct k b m d.1)
  ]

  pub erase_in-Distinct : (k : ℕ) (m : List (ℕ × A)) → Distinct m → Distinct (erase_in k m)
  erase_in-Distinct k [] d = tt
  erase_in-Distinct k ((i, a) ∷ m) d = elim (Bool-cases (i == k)) [
    | inl y ↦ rw y d.1
    | inr n ↦
        let same : lookup_in i (erase_in k m) ≡ lookup_in i m =
          lookup_in-erase_in_other k i m (ground (arith, n)) in
        rw n (rw same d.0, erase_in-Distinct k m d.1)
  ]

  -- What holds of every entry, after a write of one of which it holds.
  pub write_in-each {κ} :
      (P : ℕ → A → Type κ) (k : ℕ) (b : A) (m : List (ℕ × A))
      → P k b
      → ((j : ℕ) (a : A) → lookup_in j m ≡ some a → P j a)
      → (j : ℕ) (a : A) → lookup_in j (write_in k b m) ≡ some a
      → P j a
  write_in-each P k b m own rest j a e = elim (Bool-cases (k == j)) [
    | inl y ↦
        let same : k ≡ j = ground (arith, y) in
        let found : some b ≡ some a = sym (lookup_in-write_in k b m) ∙ rw (sym same) at e in
        let value : b ≡ a = cc in rw (sym same, sym value) own
    | inr n ↦ rest j a (sym (lookup_in-write_in_other k j b m n) ∙ e)
  ]

  -- What an erased map still has is of another key, and was there.
  pub lookup_in-kept :
      (k : ℕ) (m : List (ℕ × A)) (j : ℕ) (a : A)
      → Distinct m
      → lookup_in j (erase_in k m) ≡ some a
      → ((k == j) ≡ false) × (lookup_in j m ≡ some a)
  lookup_in-kept k m j a d e = elim (Bool-cases (k == j)) [
    | inl y ↦
        let same : k ≡ j = ground (arith, y) in
        let free = lookup_in-erase_in k m d in
        let here : lookup_in k (erase_in k m) ≡ some a =
          subst (λ i. lookup_in i (erase_in k m) ≡ some a) (sym same) e in
        absurd (let no = rw here at free in cc)
    | inr n ↦ (n, sym (lookup_in-erase_in_other k j m n) ∙ e)
  ]
