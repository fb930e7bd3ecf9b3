-- ===== src/Pots/Entitled.antt =====
-- packages/core/src/pots.ts: who can win what of the pots that `buildPots` returns.

use mathlib.Core.Path.{subst}
use vr_poker.Prelude.{
  ℕ, zero, suc, ◌+◌, ◌-◌, ◌*◌, ◌≤◌, ◌<◌, ◌≡◌, inl, inr, refl, ap, true, false, Bool, List, [], ◌∷◌,
  arith, length, All, member, if◌then◌else◌, Bool-cases, tests, dec_lt, ◌∙◌,
}
use vr_poker.Prelude.Sums.{sum_of}
use vr_poker.Pots.{
  Pot, Contribution, has_chips, lower_all, eligible_ids, layer, with_committed, build_loop,
}
use vr_poker.Pots.Uncalled.{ids_of, Distinct, committed_of}
use vr_poker.Pots.Layers.{
  winnable, covered, Here, Reaches, active_of, level, no_chips, level-Reaches, covered-lower_all,
  round_shrinks, used_up, build_loop-done, build_loop-round,
}

abbrev pub lowered : ℕ → Contribution → Contribution
lowered l c = if has_chips c then with_committed (c.committed - l) c else c

pub lowered-id : (l : ℕ) (c : Contribution) → (lowered l c).player_id ≡ c.player_id
lowered-id l c = ground arith

pub lowered-folded : (l : ℕ) (c : Contribution) → (lowered l c).folded ≡ c.folded
lowered-folded l c = ground arith

pub Here-lowered :
    (l : ℕ) (c : Contribution) (cs : List Contribution)
    → Here c cs
    → Here (lowered l c) (lower_all l cs)
Here-lowered l c [] h = h
Here-lowered l c (x ∷ cs) (inl e) = inl (ap (lowered l) e)
Here-lowered l c (x ∷ cs) (inr h) = inr (Here-lowered l c cs h)

pub ids-lower_all : (l : ℕ) (cs : List Contribution) → ids_of (lower_all l cs) ≡ ids_of cs
ids-lower_all l [] = refl
ids-lower_all l (c ∷ cs) = elim (Bool-cases (has_chips c)) [
  | inl e ↦ rw e (ap (◌∷◌ c.player_id) (ids-lower_all l cs))
  | inr e ↦ rw e (ap (◌∷◌ c.player_id) (ids-lower_all l cs))
]

pub Here-member :
    (c : Contribution) (cs : List Contribution) → Here c cs → member c.player_id (ids_of cs) ≡ true
Here-member c [] h = absurd h
Here-member c (x ∷ cs) (inl e) = ground arith
Here-member c (x ∷ cs) (inr h) = ground (arith, Here-member c cs h)

Here-All {κ} :
    (P : Contribution → Type κ) (c : Contribution) (cs : List Contribution)
    → Here c cs
    → All P cs
    → P c
Here-All P c [] h a = absurd h
Here-All P c (x ∷ cs) (inl e) a = rw e at a.0
Here-All P c (x ∷ cs) (inr h) a = Here-All P c cs h a.1

not-eligible :
    (p : ℕ) (cs : List Contribution)
    → member p (ids_of cs) ≡ false
    → member p (eligible_ids (active_of cs)) ≡ false
not-eligible p [] h = refl
not-eligible p (c ∷ cs) h = elim (Bool-cases (has_chips c)) [
  | inl e ↦ rw e (ground (arith, not-eligible p cs))
  | inr e ↦ rw e (ground (arith, not-eligible p cs))
]

-- A live player with chips left is eligible, and one without chips is not.
pub eligible-lem :
    (c : Contribution) (cs : List Contribution)
    → Distinct (ids_of cs)
    → Here c cs
    → c.folded ≡ false
    → member c.player_id (eligible_ids (active_of cs)) ≡ has_chips c
eligible-lem c [] d h f = absurd h
eligible-lem c (x ∷ cs) d (inl q) f = elim (Bool-cases (has_chips x)) [
  | inl e ↦ rw e (ground (arith, not-eligible x.player_id cs d.0))
  | inr e ↦ rw e (ground (arith, not-eligible x.player_id cs d.0))
]
eligible-lem c (x ∷ cs) d (inr h) f = elim (Bool-cases (has_chips x)) [
  | inl e ↦ rw e (ground (arith, eligible-lem c cs d.1 h f, Here-member c cs h))
  | inr e ↦ rw e (ground (arith, eligible-lem c cs d.1 h f))
]

pub covered-zero : (cs : List Contribution) → covered 0 cs ≡ 0
covered-zero [] = refl
covered-zero (c ∷ cs) = omega (arith, covered-zero cs)

covered-le : (k : ℕ) (cs : List Contribution) → covered k cs ≤ sum_of committed_of cs
covered-le k [] = omega arith
covered-le k (c ∷ cs) = omega (arith, covered-le k cs)

module _ (p : ℕ) (rest : List Pot) (cs : List Contribution) where
  pub winnable-layer :
      (b : Bool)
      → member p (eligible_ids (active_of cs)) ≡ b
      → winnable p (layer cs ∷ rest)
        ≡ (if b then length (active_of cs) * level cs else 0) + winnable p rest
  winnable-layer b e = rw e refl

winnable-round :
    (fuel : ℕ) (c : Contribution) (cs : List Contribution)
    → (b : Bool) → has_chips c ≡ b
    → Distinct (ids_of cs)
    → Here c cs
    → c.folded ≡ false
    → 0 < length (active_of cs)
    → winnable c.player_id (build_loop fuel (lower_all (level cs) cs))
      ≡ covered (lowered (level cs) c).committed (lower_all (level cs) cs)
    → winnable c.player_id (build_loop (suc fuel) cs) ≡ covered c.committed cs
winnable-round fuel c cs true e d h f p ih =
    let reach = Here-All (Reaches (level cs)) c cs h (level-Reaches (level cs) cs refl) in
    rw
      (
        build_loop-round fuel cs p,
        winnable-layer c.player_id (build_loop fuel (lower_all (level cs) cs)) cs true
            (eligible-lem c cs d h f ∙ e),
      )
      (omega (
        tests,
        e,
        rw e at ih,
        covered-lower_all c.committed (level cs) cs (ground (arith, reach))
            (level-Reaches (level cs) cs refl),
      ))
winnable-round fuel c cs false e d h f p ih =
    rw
      (
        build_loop-round fuel cs p,
        winnable-layer c.player_id (build_loop fuel (lower_all (level cs) cs)) cs false
            (eligible-lem c cs d h f ∙ e),
        no_chips c e,
        covered-zero cs,
      )
      (omega (arith, rw (e, no_chips c e, covered-zero (lower_all (level cs) cs)) at ih))

-- In the loop a live player with `k` chips left can win what `k` covers.
pub winnable-build_loop :
    (fuel : ℕ) (c : Contribution) (cs : List Contribution)
    → length (active_of cs) ≤ fuel
    → Distinct (ids_of cs)
    → Here c cs
    → c.folded ≡ false
    → winnable c.player_id (build_loop fuel cs) ≡ covered c.committed cs
winnable-build_loop zero c cs le d h f =
    rw (build_loop-done 0 cs (omega arith))
      (omega (arith, used_up cs (omega arith), covered-le c.committed cs))
winnable-build_loop (suc fuel) c cs le d h f = elim (dec_lt 0 (length (active_of cs))) [
  | yes p ↦ winnable-round fuel c cs (has_chips c) refl d h f p (
      subst
        (λ q.
          winnable q (build_loop fuel (lower_all (level cs) cs))
          ≡ covered (lowered (level cs) c).committed (lower_all (level cs) cs))
        (lowered-id (level cs) c)
        (winnable-build_loop fuel (lowered (level cs) c) (lower_all (level cs) cs)
          (omega (arith, round_shrinks (level cs) cs refl p)) (rw (ids-lower_all (level cs) cs) d)
          (Here-lowered (level cs) c cs h) (lowered-folded (level cs) c ∙ f)))
  | no p ↦
      rw (build_loop-done (suc fuel) cs (omega arith))
        (omega (arith, used_up cs (omega arith), covered-le c.committed cs))
]

pub Here-active :
    (c : Contribution) (cs : List Contribution)
    → has_chips c ≡ true
    → Here c cs
    → Here c (active_of cs)
Here-active c [] e h = h
Here-active c (x ∷ cs) e (inl q) = rw (rw (← q) at e) (inl q)
Here-active c (x ∷ cs) e (inr h) = elim (Bool-cases (has_chips x)) [
  | inl y ↦ rw y (inr (Here-active c cs e h))
  | inr n ↦ rw n (Here-active c cs e h)
]

member-active :
    (p : ℕ) (cs : List Contribution)
    → member p (ids_of cs) ≡ false
    → member p (ids_of (active_of cs)) ≡ false
member-active p [] h = refl
member-active p (c ∷ cs) h = elim (Bool-cases (has_chips c)) [
  | inl y ↦ rw y (ground (arith, member-active p cs))
  | inr n ↦ rw n (ground (arith, member-active p cs))
]

pub Distinct-active :
    (cs : List Contribution) → Distinct (ids_of cs) → Distinct (ids_of (active_of cs))
Distinct-active [] d = tt
Distinct-active (c ∷ cs) d = elim (Bool-cases (has_chips c)) [
  | inl y ↦ rw y (member-active c.player_id cs d.0, Distinct-active cs d.1)
  | inr n ↦ rw n (Distinct-active cs d.1)
]

pub covered-active : (k : ℕ) (cs : List Contribution) → covered k (active_of cs) ≡ covered k cs
covered-active k [] = refl
covered-active k (c ∷ cs) = elim (Bool-cases (has_chips c)) [
  | inl y ↦ rw y (omega (arith, covered-active k cs))
  | inr n ↦ rw n (omega (arith, no_chips c n, covered-active k cs))
]
