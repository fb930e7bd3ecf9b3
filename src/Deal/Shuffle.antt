-- ===== src/Deal/Shuffle.antt =====
-- packages/deal/src/index.ts: `streamInt` is in range and without bias, `fisherYates` permutes.
use native.Mathlib.Nat.{mod-lt, div-add-mod', mul-le-mul_right, add-zero}
use vr_poker.Prelude.{
  ℕ, zero, suc, ◌+◌, ◌-◌, ◌*◌, ◌/◌, ◌%◌, ◌^◌, ◌≤◌, ◌<◌, ◌≡◌, ◌↔◌, inl, inr, refl, ap, ◌∙◌, true,
  some, List, [], ◌∷◌, arith, if◌then◌else◌, ltb, lt→ltb, dec_lt, ◌==◌, length, get_or, set,
  get_elem?, Bool-cases, length-set,
}
use vr_poker.Prelude.Sums.{sum_of, sum_of-set}
use vr_poker.Deal.{Buffer, block, limit, draw, stream_int, shuffle_from, fisher_yates, swap}

abbrev pub one_if : ℕ → ℕ → ℕ
one_if a x = if x == a then 1 else 0

-- How often `a` stands in a list.
abbrev pub count : ℕ → List ℕ → ℕ
count a = sum_of (one_if a)

get_elem?-get_or : (xs : List ℕ) (i : ℕ) → i < length xs → get_elem? xs i ≡ some (get_or xs i 0)
get_elem?-get_or [] i h = absurd (omega arith)
get_elem?-get_or (x ∷ xs) zero h = refl
get_elem?-get_or (x ∷ xs) (suc i) h = get_elem?-get_or xs i (omega arith)

get_or-set :
    (xs : List ℕ) (i j v : ℕ)
    → i < length xs
    → get_or (set xs i v) j 0 ≡ (if i == j then v else get_or xs j 0)
get_or-set [] i j v h = absurd (omega arith)
get_or-set (x ∷ xs) zero zero v h = refl
get_or-set (x ∷ xs) zero (suc j) v h = ground arith
get_or-set (x ∷ xs) (suc i) zero v h = ground arith
get_or-set (x ∷ xs) (suc i) (suc j) v h = ground (arith, get_or-set xs i j v)

count-swap :
    (a i j : ℕ) (xs : List ℕ) → i < length xs → j < length xs → count a (swap i j xs) ≡ count a xs
count-swap a i j xs hi hj =
    let y = get_or xs j 0 in
    let once = set xs i y in
    let lj : j < length once = omega (arith, length-set xs i y) in
    let first = sum_of-set (one_if a) xs i y (get_elem?-get_or xs i hi) in
    let second = sum_of-set (one_if a) once j (get_or xs i 0) (get_elem?-get_or once j lj) in
    let kept : get_or once j 0 ≡ y = ground (arith, get_or-set xs i j y hi) in
    omega (arith, first, second, ap (one_if a) kept)

suc_times : (q n : ℕ) → (q + 1) * n ≡ q * n + n
suc_times q n = grind arith

shifted : (c k : ℕ) → suc c + k ≡ c + suc k
shifted c k = omega arith

-- The words below the bound are those of `2 ^ 32 / n` whole rounds of the remainders of `n`.
limit-rounds : (n : ℕ) → limit n ≡ 2 ^ 32 / n * n
limit-rounds n = omega (arith, div-add-mod' (2 ^ 32) n)

-- Every number `r` below `n` is the remainder of exactly as many words that are taken: the word
-- `q * n + r` is taken just when `q` is below `2 ^ 32 / n`, a bound that does not depend on `r`.
pub limit_fair : (n r q : ℕ) → r < n → (q * n + r < limit n) ↔ (q < 2 ^ 32 / n)
limit_fair n r q h =
    let rounds = 2 ^ 32 / n in
    (
      λ below. elim (dec_lt q rounds) [
        | yes lt ↦ lt
        | no ge ↦ absurd (
            omega
              (arith, below, limit-rounds n, mul-le-mul_right {m = rounds} {n = q} n (omega arith)))
      ],
      λ lt. omega (
        arith,
        limit-rounds n,
        mul-le-mul_right {m = q + 1} {n = rounds} n (omega arith),
        suc_times q n,
      ),
    )

-- A rearrangement of `xs`: every number stands in it as often, and none of its numbers is new.
abbrev pub Rearranged : List ℕ → List ℕ → Type 0
Rearranged xs ys = ((a : ℕ) → count a ys ≡ count a xs) × (length ys ≡ length xs)

module _ (sha256 : List Buffer → Buffer) (fuel : ℕ) (seed nonce : Buffer) where
  -- Among any `fuel` blocks in a row there is one that is taken for every `n` up to `most`.
  abbrev pub Plentiful : ℕ → Type 0
  Plentiful most =
      (c n : ℕ)
      → 0 < n
      → n ≤ most
      → (k : ℕ) × (k < fuel) × (block sha256 seed nonce (c + k) < limit n)

  draw-found :
      (left c n k : ℕ)
      → 0 < n
      → k < left
      → block sha256 seed nonce (c + k) < limit n
      → (j : ℕ) × (c' : ℕ) × (draw sha256 fuel seed nonce n left c ≡ some (j, c')) × (j < n)
  unfolding draw
  draw-found zero c n k p l h = absurd (omega arith)
  draw-found (suc left) c n zero p l h =
      let y : ltb (block sha256 seed nonce c) (limit n) ≡ true =
        lt→ltb (block sha256 seed nonce c) (limit n) (rw add-zero at h) in
      (block sha256 seed nonce c % n, suc c, rw y refl, mod-lt (block sha256 seed nonce c) p)
  draw-found (suc left) c n (suc k) p l h =
      let further : block sha256 seed nonce (suc c + k) < limit n = rw (shifted c k) h in
      let (j, c', e, lt) = draw-found left (suc c) n k p (omega arith) further in
      elim (Bool-cases (ltb (block sha256 seed nonce c) (limit n))) [
        | inl y ↦
            (block sha256 seed nonce c % n, suc c, rw y refl, mod-lt (block sha256 seed nonce c) p)
        | inr no_block ↦ (j, c', rw (no_block, e) refl, lt)
      ]

  stream_int-found :
      (most n c : ℕ)
      → Plentiful most
      → 0 < n
      → n ≤ most
      → (j : ℕ) × (c' : ℕ) × (stream_int sha256 fuel seed nonce n c ≡ some (j, c')) × (j < n)
  unfolding stream_int
  stream_int-found most n c plenty p le =
      let (k, l, h) = plenty c n p le in draw-found fuel c n k p l h

  -- The loop returns a rearrangement.
  shuffle_from-Rearranged :
      (most i c : ℕ) (out : List ℕ)
      → Plentiful most
      → length out ≤ most
      → i ≤ length out - 1
      → (r : List ℕ) × (shuffle_from sha256 fuel seed nonce i out c ≡ some r) × Rearranged out r
  unfolding shuffle_from
  shuffle_from-Rearranged most zero c out plenty le h = (out, refl, ((λ a. refl), refl))
  shuffle_from-Rearranged most (suc i) c out plenty le h =
      let (j, c', e, lt) =
        stream_int-found most (suc (suc i)) c plenty (omega arith) (omega arith) in
      let next = swap (suc i) j out in
      let same : length next ≡ length out =
        length-set (set out (suc i) (get_or out j 0)) j (get_or out (suc i) 0)
        ∙ length-set out (suc i) (get_or out j 0) in
      let (r, found, rearranged) =
        shuffle_from-Rearranged most i c' next plenty (omega (arith, same)) (omega (arith, same)) in
      (
        r,
        rw (e, shuffle_from) found,
        (
          (λ a. rearranged.0 a ∙ count-swap a (suc i) j out (omega arith) (omega arith)),
          rearranged.1 ∙ same,
        ),
      )

  -- Where the stream has enough blocks, `fisherYates` returns, and its result is a rearrangement:
  -- every number stands in it as often as in the input.
  pub fisher_yates-Rearranged :
      (ids : List ℕ)
      → Plentiful (length ids)
      → (r : List ℕ) × (fisher_yates sha256 fuel ids seed nonce ≡ some r) × Rearranged ids r
  unfolding fisher_yates
  fisher_yates-Rearranged ids plenty =
      shuffle_from-Rearranged (length ids) (length ids - 1) 0 ids plenty (omega arith) (omega arith)
