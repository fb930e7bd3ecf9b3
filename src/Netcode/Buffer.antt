-- ===== src/Netcode/Buffer.antt =====
-- packages/netcode/src/pose.ts: the samples of a buffer stay sorted, and what is shown between them.
use vr_poker.Prelude.{
  ℕ, zero, suc, ◌-◌, ◌≤◌, ◌≡◌, ◌⊎◌, inl, inr, refl, ap, true, false, Option, none, some, List, [],
  ◌∷◌, ◌++◌, arith, length, drop, length-drop, All, Bool-cases,
}
use vr_poker.Prelude.Int.{ℤ, pos, ◌≤ℤ◌, leb_ℤ, ◌-ℤ◌}
use vr_poker.Prelude.Sort.{insert_by, sort_by}
use vr_poker.Server.Room.State.{PresencePose}
use vr_poker.Netcode.Pose.{
  PoseInterpolator, earlier, push, last_of, between, is_between, walk, sample_of, sample,
}

module _ {P : Type 0} where
  -- in the order of their times
  abbrev pub IsSorted : List (PresencePose P) → Type 0
  IsSorted [] = Unit
  IsSorted (a ∷ rest) = All (λ b. a.t ≤ b.t) rest × IsSorted rest

  All-later :
      (x y : PresencePose P) (ys : List (PresencePose P))
      → x.t ≤ y.t
      → All (λ b. y.t ≤ b.t) ys
      → All (λ b. x.t ≤ b.t) ys
  All-later x y [] h k = tt
  All-later x y (z ∷ ys) h k = (omega (arith, h, k.0), All-later x y ys h k.1)

  insert_later :
      (low : ℕ) (x : PresencePose P) (ys : List (PresencePose P))
      → low ≤ x.t
      → All (λ b. low ≤ b.t) ys
      → All (λ b. low ≤ b.t) (insert_by earlier x ys)
  unfolding insert_by
  insert_later low x [] h k = (h, tt)
  insert_later low x (y ∷ ys) h k = elim (Bool-cases (earlier y x)) [
    | inl e ↦ rw e (k.0, insert_later low x ys h k.1)
    | inr n ↦ rw n (h, k)
  ]

  insert_by-IsSorted :
      (x : PresencePose P) (ys : List (PresencePose P))
      → IsSorted ys
      → IsSorted (insert_by earlier x ys)
  unfolding insert_by
  insert_by-IsSorted x [] h = (tt, tt)
  insert_by-IsSorted x (y ∷ ys) h = elim (Bool-cases (earlier y x)) [
    | inl e ↦ rw e (insert_later y.t x ys (ground (arith, e)) h.0, insert_by-IsSorted x ys h.1)
    | inr n ↦
        let before : x.t ≤ y.t = ground (arith, n) in
        rw n ((before, All-later x y ys before h.0), h)
  ]

  sort_by-IsSorted : (xs : List (PresencePose P)) → IsSorted (sort_by earlier xs)
  unfolding sort_by
  sort_by-IsSorted [] = tt
  sort_by-IsSorted (x ∷ xs) = insert_by-IsSorted x (sort_by earlier xs) (sort_by-IsSorted xs)

  drop-IsSorted : (n : ℕ) (xs : List (PresencePose P)) → IsSorted xs → IsSorted (drop n xs)
  drop-IsSorted zero xs h = h
  drop-IsSorted (suc n) [] h = tt
  drop-IsSorted (suc n) (x ∷ xs) h = drop-IsSorted n xs h.1

  -- After a sample is pushed, whatever the buffer had and whenever the sample was taken, the samples are
  -- in the order of their times and no more than the buffer is for.
  pub push-IsSorted :
      (s : PresencePose P) (b : PoseInterpolator P)
      → IsSorted (push s b).samples × (length (push s b).samples ≤ b.max_samples)
  unfolding push
  push-IsSorted s b =
      let sorted = sort_by earlier (b.samples ++ (s ∷ [])) in
      (
        drop-IsSorted (length sorted - b.max_samples) sorted
            (sort_by-IsSorted (b.samples ++ (s ∷ []))),
        omega (arith, length-drop (length sorted - b.max_samples) sorted),
      )

  -- Two samples next to each other in a buffer.
  abbrev pub AreNeighbours : PresencePose P → PresencePose P → List (PresencePose P) → Type 0
  AreNeighbours a b xs =
      (before : List (PresencePose P)) × (after : List (PresencePose P)) × (xs
        ≡ before ++ (a ∷ b ∷ after))

module _ {P : Type 0} (lerp : P → P → ℕ → ℕ → P) where
  -- The pose is between two neighbours, at the time that is asked for, which is theirs or between.
  abbrev pub IsBetween : ℤ → List (PresencePose P) → PresencePose P → Type 0
  IsBetween target xs r =
      (a : PresencePose P) × (b : PresencePose P) × AreNeighbours a b xs
      × (pos a.t ≤ℤ target)
      × (target ≤ℤ pos b.t)
      × (r ≡ between lerp target a b)

  walk-IsBetween :
      (target : ℤ) (last a b : PresencePose P) (rest : List (PresencePose P))
      → pos a.t ≤ℤ target
      → target ≤ℤ pos (last_of b rest).t
      → IsBetween target (a ∷ b ∷ rest) (walk lerp target last a (b ∷ rest))
  walk-IsBetween target last a b [] h k =
      let here : is_between lerp target a b ≡ true = ground (arith, h, k) in
      rw here (a, b, ([], [], refl), h, k, refl)
  walk-IsBetween target last a b (c ∷ rest) h k = elim (Bool-cases (leb_ℤ target (pos b.t))) [
    | inl y ↦
        let here : is_between lerp target a b ≡ true = ground (arith, h, y) in
        rw here (a, b, ([], c ∷ rest, refl), h, ground (arith, y), refl)
    | inr n ↦
        let passed : is_between lerp target a b ≡ false = ground (arith, n) in
        let reached : pos b.t ≤ℤ target = ground (arith, n) in
        let (x, y, (before, after, e), u, v, r) = walk-IsBetween target last b c rest reached k in
        rw passed (x, y, (a ∷ before, after, ap (λ t. a ∷ t) e), u, v, r)
  ]

  -- Nothing of no samples; the first sample up to its time, the last one from its time on, or what
  -- interpolates two neighbours.
  abbrev pub Shows : ℤ → List (PresencePose P) → Option (PresencePose P) → Type 0
  Shows target [] r = r ≡ none
  Shows target (a ∷ rest) r =
      ((target ≤ℤ pos a.t) × (r ≡ some a))
      ⊎ ((pos (last_of a rest).t ≤ℤ target) × (r ≡ some (last_of a rest)))
      ⊎ ((p : PresencePose P) × (r ≡ some p) × IsBetween target (a ∷ rest) p)

  sample_of-Shows :
      (target : ℤ) (a : PresencePose P) (rest : List (PresencePose P))
      → Shows target (a ∷ rest) (some (sample_of lerp target a rest))
  sample_of-Shows target a [] = elim (Bool-cases (leb_ℤ target (pos a.t))) [
    | inl y ↦ inl (ground (arith, y), refl)
    | inr n ↦ inr (inl (ground (arith, n), refl))
  ]
  sample_of-Shows target a (b ∷ rest) =
      let last = last_of b rest in
      elim (Bool-cases (leb_ℤ target (pos a.t))) [
        | inl y ↦ rw y (inl (ground (arith, y), refl))
        | inr n ↦ elim (Bool-cases (leb_ℤ (pos last.t) target)) [
          | inl y ↦ rw (n, y) (inr (inl (ground (arith, y), refl)))
          | inr m ↦
              let found =
                walk-IsBetween target last a b rest (ground (arith, n)) (ground (arith, m)) in
              rw (n, m) (inr (inr (walk lerp target last a (b ∷ rest), refl, found)))
        ]
      ]

  -- What a buffer shows at a time less its delay: of no samples nothing; the first sample up to its
  -- time; the last one from its time on; or, at exactly that time, the interpolation of two neighbours
  -- of which one was taken at or before it and the other at or after it.
  pub sample-Shows :
      (now : ℤ) (buffer : PoseInterpolator P)
      → Shows (now -ℤ pos buffer.delay_ms) buffer.samples (sample lerp now buffer)
  unfolding sample
  sample-Shows now buffer = go buffer.samples refl
    where
      go :
          (samples : List (PresencePose P))
          → buffer.samples ≡ samples
          → Shows (now -ℤ pos buffer.delay_ms) samples (sample lerp now buffer)
      go [] e = rw (sample, e) refl
      go (a ∷ rest) e = rw (sample, e) (sample_of-Shows (now -ℤ pos buffer.delay_ms) a rest)
