-- ===== src/Pots/Layers.antt =====
-- packages/core/src/pots.ts: `buildPots`, the side pots.
use native.Mathlib.Nat.{le_refl}
use vr_poker.Prelude.{
  ℕ, zero, suc, ◌+◌, ◌-◌, ◌*◌, ◌≤◌, ◌<◌, ◌≡◌, ◌⊎◌, inl, inr, refl, ap, false, List, [], ◌∷◌, arith,
  length, All, member, if◌then◌else◌, min, ◌∙◌, keep, Bool-cases, tests, dec_lt,
}
use vr_poker.Prelude.Sums.{sum_of}
use vr_poker.Pots.{
  Pot, Contribution, has_chips, least, level_of, lower_all, layer, build_loop, build_pots,
}
use vr_poker.Pots.Uncalled.{committed_of}

abbrev pub pot_amount : Pot → ℕ
pot_amount p = p.amount

-- What player `p` can win of the pots.
abbrev pub winnable : ℕ → List Pot → ℕ
winnable p = sum_of (λ pot. if member p pot.eligible then pot.amount else 0)

-- What a stake of `k` covers: up to `k` chips of every contribution.
abbrev pub covered : ℕ → List Contribution → ℕ
covered k = sum_of (λ c. min c.committed k)

-- The contribution is in the list.
abbrev pub Here : Contribution → List Contribution → Type 0
Here c [] = ⊥
Here c (x ∷ xs) = (x ≡ c) ⊎ Here c xs

-- A contribution is used up, or reaches the level.
abbrev pub Reaches : ℕ → Contribution → Type 0
Reaches l c = (c.committed ≡ 0) ⊎ (l ≤ c.committed)

abbrev pub active_of : List Contribution → List Contribution
active_of = keep has_chips

least-le : (m : ℕ) (cs : List Contribution) → least m cs ≤ m
least-le m [] = omega arith
least-le m (c ∷ cs) = omega (arith, least-le (min m c.committed) cs)

pub no_chips : (c : Contribution) → has_chips c ≡ false → c.committed ≡ 0
no_chips c e = ground arith

least-Reaches : (m l : ℕ) (cs : List Contribution) → l ≡ least m (active_of cs) → All (Reaches l) cs
least-Reaches m l [] q = tt
least-Reaches m l (c ∷ cs) q = elim (Bool-cases (has_chips c)) [
  | inl e ↦
      let q' : l ≡ least (min m c.committed) (active_of cs) = rw e at q in
      (
        inr (omega (arith, least-le (min m c.committed) (active_of cs))),
        least-Reaches (min m c.committed) l cs q',
      )
  | inr e ↦ (inl (no_chips c e), least-Reaches m l cs (rw e at q))
]

abbrev pub level : List Contribution → ℕ
level cs = level_of (active_of cs)

-- The level is at most every commitment that is not used up.
pub level-Reaches : (l : ℕ) (cs : List Contribution) → l ≡ level cs → All (Reaches l) cs
level-Reaches l [] q = tt
level-Reaches l (c ∷ cs) q = elim (Bool-cases (has_chips c)) [
  | inl e ↦
      let q' : l ≡ least c.committed (active_of cs) = rw e at q in
      (inr (omega (arith, least-le c.committed (active_of cs))), least-Reaches c.committed l cs q')
  | inr e ↦ (inl (no_chips c e), level-Reaches l cs (rw e at q))
]

-- A round moves `level` chips of each active contribution into the pot.
sum-lower_all :
    (l : ℕ) (cs : List Contribution)
    → All (Reaches l) cs
    → sum_of committed_of (lower_all l cs) + length (active_of cs) * l ≡ sum_of committed_of cs
sum-lower_all l [] h = omega arith
sum-lower_all l (c ∷ cs) h = elim (Bool-cases (has_chips c)) [
  | inl e ↦ rw e (omega (tests, e, sum-lower_all l cs h.1))
  | inr e ↦ rw e (omega (arith, sum-lower_all l cs h.1))
]

pub covered-lower_all :
    (k l : ℕ) (cs : List Contribution)
    → l ≤ k
    → All (Reaches l) cs
    → covered (k - l) (lower_all l cs) + length (active_of cs) * l ≡ covered k cs
covered-lower_all k l [] le h = omega arith
covered-lower_all k l (c ∷ cs) le h = elim (Bool-cases (has_chips c)) [
  | inl e ↦ rw e (omega (tests, e, covered-lower_all k l cs le h.1))
  | inr e ↦ rw e (omega (arith, no_chips c e, covered-lower_all k l cs le h.1))
]

active_shrinks :
    (l : ℕ) (cs : List Contribution) → length (active_of (lower_all l cs)) ≤ length (active_of cs)
active_shrinks l [] = omega arith
active_shrinks l (c ∷ cs) = elim (Bool-cases (has_chips c)) [
  | inl e ↦ rw e (ground (arith, active_shrinks l cs))
  | inr e ↦ rw (e, e) (ground (arith, active_shrinks l cs))
]

-- Some contribution that is not used up stands at the level, so a round uses it up.
least-attained :
    (m l : ℕ) (cs : List Contribution)
    → l ≡ least m (active_of cs)
    → (l ≡ m) ⊎ (length (active_of (lower_all l cs)) < length (active_of cs))
least-attained m l [] q = inl q
least-attained m l (c ∷ cs) q = elim (Bool-cases (has_chips c)) [
  | inl e ↦
      let q' : l ≡ least (min m c.committed) (active_of cs) = rw e at q in
      rw e (ground (arith, least-attained (min m c.committed) l cs q', active_shrinks l cs))
  | inr e ↦ rw (e, e) (least-attained m l cs (rw e at q))
]

pub round_shrinks :
    (l : ℕ) (cs : List Contribution)
    → l ≡ level cs
    → 0 < length (active_of cs)
    → length (active_of (lower_all l cs)) < length (active_of cs)
round_shrinks l [] q h = h
round_shrinks l (c ∷ cs) q h = elim (Bool-cases (has_chips c)) [
  | inl e ↦
      let q' : l ≡ least c.committed (active_of cs) = rw e at q in
      rw e (ground (arith, least-attained c.committed l cs q', active_shrinks l cs))
  | inr e ↦ rw (e, e) (round_shrinks l cs (rw e at q) (rw e at h))
]

least-pos : (m : ℕ) (cs : List Contribution) → 0 < m → 0 < least m (active_of cs)
least-pos m [] h = h
least-pos m (c ∷ cs) h = elim (Bool-cases (has_chips c)) [
  | inl e ↦ rw e (least-pos (min m c.committed) cs (omega (tests, e)))
  | inr e ↦ rw e (least-pos m cs h)
]

level-pos : (cs : List Contribution) → 0 < length (active_of cs) → 0 < level cs
level-pos [] h = h
level-pos (c ∷ cs) h = elim (Bool-cases (has_chips c)) [
  | inl e ↦ rw e (least-pos c.committed cs (omega (tests, e)))
  | inr e ↦ rw e (level-pos cs (rw e at h))
]

pub used_up : (cs : List Contribution) → length (active_of cs) ≡ 0 → sum_of committed_of cs ≡ 0
used_up [] h = refl
used_up (c ∷ cs) h = elim (Bool-cases (has_chips c)) [
  | inl e ↦ absurd (omega (arith, rw e at h))
  | inr e ↦ omega (arith, no_chips c e, used_up cs (rw e at h))
]

pub build_loop-done :
    (fuel : ℕ) (cs : List Contribution) → length (active_of cs) ≡ 0 → build_loop fuel cs ≡ []
unfolding build_loop
build_loop-done zero cs h = refl
build_loop-done (suc fuel) cs h = ground arith

mul-pos : (a b : ℕ) → 0 < a → 0 < b → 0 < a * b
mul-pos a b h k = grind arith

layer-pos : (cs : List Contribution) → 0 < length (active_of cs) → 0 < pot_amount (layer cs)
layer-pos cs h = mul-pos (length (active_of cs)) (level cs) h (level-pos cs h)

pub build_loop-round :
    (fuel : ℕ) (cs : List Contribution)
    → 0 < length (active_of cs)
    → build_loop (suc fuel) cs ≡ layer cs ∷ build_loop fuel (lower_all (level cs) cs)
unfolding build_loop
build_loop-round fuel cs h = ground (arith, layer-pos cs h)

-- With fuel for each contribution the pots hold all the chips.
build_loop-sum :
    (fuel : ℕ) (cs : List Contribution)
    → length (active_of cs) ≤ fuel
    → sum_of pot_amount (build_loop fuel cs) ≡ sum_of committed_of cs
build_loop-sum zero cs h =
    rw (build_loop-done 0 cs (omega arith)) (omega (arith, used_up cs (omega arith)))
build_loop-sum (suc fuel) cs h = elim (dec_lt 0 (length (active_of cs))) [
  | yes p ↦ rw (build_loop-round fuel cs p) (
      omega (
        arith,
        sum-lower_all (level cs) cs (level-Reaches (level cs) cs refl),
        build_loop-sum fuel (lower_all (level cs) cs)
            (omega (arith, round_shrinks (level cs) cs refl p)),
      ))
  | no p ↦
      rw (build_loop-done (suc fuel) cs (omega arith)) (omega (arith, used_up cs (omega arith)))
]

pub active_idem : (cs : List Contribution) → active_of (active_of cs) ≡ active_of cs
active_idem [] = refl
active_idem (c ∷ cs) = elim (Bool-cases (has_chips c)) [
  | inl e ↦ rw (e, e) (ap (◌∷◌ c) (active_idem cs))
  | inr e ↦ rw e (active_idem cs)
]

sum-active : (cs : List Contribution) → sum_of committed_of (active_of cs) ≡ sum_of committed_of cs
sum-active [] = refl
sum-active (c ∷ cs) = elim (Bool-cases (has_chips c)) [
  | inl e ↦ rw e (omega (arith, sum-active cs))
  | inr e ↦ rw e (omega (arith, no_chips c e, sum-active cs))
]

-- The pots hold together exactly the chips that were committed.
pub build_pots-sum :
    (cs : List Contribution) → sum_of (λ p. p.amount) (build_pots cs) ≡ sum_of (λ c. c.committed) cs
unfolding build_pots
build_pots-sum cs =
    build_loop-sum (length (active_of cs)) (active_of cs) (rw (active_idem cs) (le_refl _))
    ∙ sum-active cs
