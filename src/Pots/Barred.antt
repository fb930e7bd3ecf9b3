-- ===== src/Pots/Barred.antt =====
-- packages/core/src/pots.ts: what each player can win of the pots that `buildPots` returns.
use native.Mathlib.Nat.{le_refl}
use vr_poker.Prelude.{
  ℕ, zero, suc, ◌≡◌, inl, inr, refl, ap, true, false, List, [], ◌∷◌, arith, length, All, member,
  ◌==◌, Bool-cases, dec_lt, ◌∙◌, not, ◌||◌,
}
use vr_poker.Pots.{Contribution, has_chips, lower_all, eligible_ids, build_loop, build_pots}
use vr_poker.Pots.Uncalled.{ids_of, Distinct}
use vr_poker.Pots.Layers.{
  winnable, covered, Here, active_of, level, no_chips, build_loop-done, build_loop-round,
  active_idem,
}
use vr_poker.Pots.Entitled.{
  Here-member, Here-active, Distinct-active, covered-active, covered-zero, winnable-layer,
  winnable-build_loop,
}

-- A contribution by which player `p` can win nothing: another's, a folded or a used up one.
abbrev Barred : ℕ → Contribution → Type 0
Barred p c = (not (c.player_id == p) || c.folded || not (has_chips c)) ≡ true

Barred-lower_all :
    (p l : ℕ) (cs : List Contribution) → All (Barred p) cs → All (Barred p) (lower_all l cs)
Barred-lower_all p l [] h = tt
Barred-lower_all p l (c ∷ cs) h = elim (Bool-cases (has_chips c)) [
  | inl e ↦ rw e (ground (arith, h.0), Barred-lower_all p l cs h.1)
  | inr e ↦ rw e (h.0, Barred-lower_all p l cs h.1)
]

Barred-active : (p : ℕ) (cs : List Contribution) → All (Barred p) cs → All (Barred p) (active_of cs)
Barred-active p [] h = tt
Barred-active p (c ∷ cs) h = elim (Bool-cases (has_chips c)) [
  | inl e ↦ rw e (h.0, Barred-active p cs h.1)
  | inr e ↦ rw e (Barred-active p cs h.1)
]

not-eligible-Barred :
    (p : ℕ) (cs : List Contribution)
    → All (Barred p) cs
    → member p (eligible_ids (active_of cs)) ≡ false
not-eligible-Barred p [] h = refl
not-eligible-Barred p (c ∷ cs) h = elim (Bool-cases (has_chips c)) [
  | inl e ↦ rw e (ground (arith, h.0, not-eligible-Barred p cs h.1))
  | inr e ↦ rw e (not-eligible-Barred p cs h.1)
]

winnable-Barred :
    (p fuel : ℕ) (cs : List Contribution) → All (Barred p) cs → winnable p (build_loop fuel cs) ≡ 0
winnable-Barred p zero cs h = unfold build_loop in refl
winnable-Barred p (suc fuel) cs h = elim (dec_lt 0 (length (active_of cs))) [
  | yes a ↦
      rw
        (
          build_loop-round fuel cs a,
          winnable-layer p (build_loop fuel (lower_all (level cs) cs)) cs false
              (not-eligible-Barred p cs h),
        )
        (omega (
          arith,
          winnable-Barred p fuel (lower_all (level cs) cs) (Barred-lower_all p (level cs) cs h),
        ))
  | no a ↦ rw (build_loop-done (suc fuel) cs (omega arith)) refl
]

absent-Barred : (p : ℕ) (cs : List Contribution) → member p (ids_of cs) ≡ false → All (Barred p) cs
absent-Barred p [] h = tt
absent-Barred p (c ∷ cs) h = (ground arith, absent-Barred p cs (ground arith))

Here-Barred :
    (c : Contribution) (cs : List Contribution)
    → Distinct (ids_of cs)
    → Here c cs
    → Barred c.player_id c
    → All (Barred c.player_id) cs
Here-Barred c [] d h b = tt
Here-Barred c (x ∷ cs) d (inl e) b =
    (rw e b, absent-Barred c.player_id cs (rw (ap (λ y. y.player_id) e) at d.0))
Here-Barred c (x ∷ cs) d (inr h) b =
    (ground (arith, d.0, Here-member c cs h), Here-Barred c cs d.1 h b)

module _ (c : Contribution) (cs : List Contribution) (d : Distinct (ids_of cs))
    (h : Here c cs) where
  -- A player who has folded can win none of the pots.
  pub folded_wins_nothing : c.folded ≡ true → winnable c.player_id (build_pots cs) ≡ 0
  unfolding build_pots
  folded_wins_nothing f =
      winnable-Barred c.player_id (length (active_of cs)) (active_of cs)
        (Barred-active c.player_id cs (Here-Barred c cs d h (ground arith)))

  -- A player who has not folded can win, of all the pots together, exactly what the player's own
  -- commitment covers of every commitment.
  pub live_wins_covered :
      c.folded ≡ false → winnable c.player_id (build_pots cs) ≡ covered c.committed cs
  unfolding build_pots
  live_wins_covered f = elim (Bool-cases (has_chips c)) [
    | inl e ↦
        winnable-build_loop (length (active_of cs)) c (active_of cs)
          (rw (active_idem cs) (le_refl _)) (Distinct-active cs d) (Here-active c cs e h) f
        ∙ covered-active c.committed cs
    | inr e ↦
        rw (no_chips c e, covered-zero cs)
          (winnable-Barred c.player_id (length (active_of cs)) (active_of cs)
            (Barred-active c.player_id cs (Here-Barred c cs d h (ground arith))))
  ]
