-- ===== src/Pots/Owned.antt =====
-- packages/core/src/pots.ts: the eligibility of the player with the largest commitment.
use native.Mathlib.Nat.{le_refl}
use mathlib.Core.Path.{subst}
use vr_poker.Prelude.{
  ℕ, zero, suc, ◌≤◌, ◌<◌, ◌≡◌, inl, inr, refl, true, false, List, [], ◌∷◌, arith, length, All,
  member, Bool-cases, tests, dec_lt, ◌∙◌,
}
use vr_poker.Pots.{Pot, Contribution, has_chips, lower_all, build_loop, build_pots}
use vr_poker.Pots.Uncalled.{ids_of, Distinct}
use vr_poker.Pots.Layers.{
  Here, active_of, level, no_chips, build_loop-done, build_loop-round, active_idem, round_shrinks,
}
use vr_poker.Pots.Entitled.{
  Here-active, Distinct-active, lowered, lowered-id, lowered-folded, Here-lowered, ids-lower_all,
  eligible-lem,
}

-- No commitment is above `k`.
abbrev pub Within : ℕ → List Contribution → Type 0
Within k = All (λ x. x.committed ≤ k)

Within-active : (k : ℕ) (cs : List Contribution) → Within k cs → Within k (active_of cs)
Within-active k [] w = tt
Within-active k (c ∷ cs) w = elim (Bool-cases (has_chips c)) [
  | inl e ↦ rw e (w.0, Within-active k cs w.1)
  | inr e ↦ rw e (Within-active k cs w.1)
]

Within-lowered :
    (l : ℕ) (c : Contribution) (cs : List Contribution)
    → has_chips c ≡ true
    → Within c.committed cs
    → Within (lowered l c).committed (lower_all l cs)
Within-lowered l c [] e w = tt
Within-lowered l c (x ∷ cs) e w = elim (Bool-cases (has_chips x)) [
  | inl y ↦ rw y (rw e (omega (arith, w.0)), Within-lowered l c cs e w.1)
  | inr n ↦ rw n (rw e (omega (arith, no_chips x n)), Within-lowered l c cs e w.1)
]

none_active : (cs : List Contribution) → Within 0 cs → length (active_of cs) ≡ 0
none_active [] w = refl
none_active (c ∷ cs) w = elim (Bool-cases (has_chips c)) [
  | inl e ↦ absurd (omega (tests, e, w.0))
  | inr e ↦ rw e (none_active cs w.1)
]

top_has_chips :
    (c : Contribution) (cs : List Contribution)
    → Within c.committed cs
    → 0 < length (active_of cs)
    → has_chips c ≡ true
top_has_chips c cs w p = elim (Bool-cases (has_chips c)) [
  | inl e ↦ e
  | inr e ↦ absurd (omega (arith, none_active cs (rw (no_chips c e) at w)))
]

abbrev pub Owns : ℕ → Pot → Type 0
Owns p pot = member p pot.eligible ≡ true

build_loop-Owns :
    (fuel : ℕ) (c : Contribution) (cs : List Contribution)
    → Distinct (ids_of cs)
    → Here c cs
    → c.folded ≡ false
    → Within c.committed cs
    → length (active_of cs) ≤ fuel
    → All (Owns c.player_id) (build_loop fuel cs)
build_loop-Owns zero c cs d h f w le = rw (build_loop-done 0 cs (omega arith)) tt
build_loop-Owns (suc fuel) c cs d h f w le = elim (dec_lt 0 (length (active_of cs))) [
  | yes a ↦
      let e = top_has_chips c cs w a in
      rw (build_loop-round fuel cs a) (
        eligible-lem c cs d h f ∙ e,
        subst (λ q. All (Owns q) (build_loop fuel (lower_all (level cs) cs)))
            (lowered-id (level cs) c)
            (build_loop-Owns fuel (lowered (level cs) c) (lower_all (level cs) cs)
              (rw (ids-lower_all (level cs) cs) d) (Here-lowered (level cs) c cs h)
              (lowered-folded (level cs) c ∙ f) (Within-lowered (level cs) c cs e w)
              (omega (arith, round_shrinks (level cs) cs refl a))),
      )
  | no a ↦ rw (build_loop-done (suc fuel) cs (omega arith)) tt
]

-- While a player whose commitment nobody exceeds has not folded, that player is eligible for
-- every pot, so no pot is left without an owner.
pub top_player_owns :
    (c : Contribution) (cs : List Contribution)
    → Distinct (ids_of cs)
    → Here c cs
    → c.folded ≡ false
    → Within c.committed cs
    → All (λ pot. member c.player_id pot.eligible ≡ true) (build_pots cs)
unfolding build_pots
top_player_owns c cs d h f w = elim (Bool-cases (has_chips c)) [
  | inl e ↦
      build_loop-Owns (length (active_of cs)) c (active_of cs) (Distinct-active cs d)
        (Here-active c cs e h) f (Within-active c.committed cs w) (rw (active_idem cs) (le_refl _))
  | inr e ↦
      rw
        (build_loop-done (length (active_of cs)) (active_of cs)
          (rw (active_idem cs) (none_active cs (rw (no_chips c e) at w))))
        tt
]
