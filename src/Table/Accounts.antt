-- ===== src/Table/Accounts.antt =====
-- packages/core/src/table.ts: `showdown` accounts for every chip that was committed.
use mathlib.Core.Path.{subst}
use vr_poker.Prelude.{
  ℕ, ◌+◌, ◌≤◌, ◌≡◌, inl, inr, refl, ap, sym, false, some, List, [], ◌∷◌, arith, All, min, map,
}
use vr_poker.Prelude.Sums.{sum_of}
use vr_poker.Pots.{Pot, Contribution, IsFraction, return_uncalled, build_pots}
use vr_poker.Pots.Uncalled.{Distinct, ids_of, capped, runner_up, return_uncalled_lem}
use vr_poker.Pots.Shares.{take_rake_lem}
use vr_poker.Pots.Layers.{pot_amount, Here, build_pots-sum}
use vr_poker.Pots.Owned.{Owns, top_player_owns}
use vr_poker.Table.State.{Table}
use vr_poker.Table.Monad.{Result, ok, err}
use vr_poker.Table.Seats.{find_seat}
use vr_poker.Table.Settle.{raked_of, contributions, run_showdown}
use vr_poker.Table.Credit.{stacks, Ensures}
use vr_poker.Table.Payout.{Setting, setting}
use vr_poker.Table.Showdown.{nets, raked_of_setting, showdown_pays}

raked_total :
    (s : Setting) (pots : List Pot)
    → IsFraction s.1.rake_percent
    → nets s pots + sum_of (λ pot. (raked_of_setting s pot.amount).rake) pots
      ≡ sum_of pot_amount pots
raked_total s [] f = omega arith
raked_total s (pot ∷ pots) f =
    ground (arith, take_rake_lem pot.amount s.1.rake_percent s.1.rake_cap f, raked_total s pots f)

capped-Within :
    (v : ℕ) (c : Contribution) (cs : List Contribution)
    → All (λ x. x.committed ≤ c.committed) cs
    → All (λ x. x.committed ≤ min c.committed v) (map (capped v) cs)
capped-Within v c [] w = tt
capped-Within v c (x ∷ cs) w = (omega (arith, w.0), capped-Within v c cs w.1)

capped-Owner :
    (v : ℕ) (c : Contribution) (cs : List Contribution)
    → Here c cs
    → All (λ x. x.committed ≤ c.committed) cs
    → Here (capped v c) (map (capped v) cs)
      × All (λ x. x.committed ≤ min c.committed v) (map (capped v) cs)
capped-Owner v c [] h w = absurd h
capped-Owner v c (x ∷ cs) (inl e) w =
    (inl (ap (capped v) e), (omega (arith, w.0), capped-Within v c cs w.1))
capped-Owner v c (x ∷ cs) (inr h) w =
    let (here, within) = capped-Owner v c cs h w.1 in (inr here, (omega (arith, w.0), within))

ids-capped : (v : ℕ) (cs : List Contribution) → ids_of (map (capped v) cs) ≡ ids_of cs
ids-capped v [] = refl
ids-capped v (c ∷ cs) = ap (λ l. c.player_id ∷ l) (ids-capped v cs)

Ensures-map :
    {A : Type 0} (P Q : A → Table → Type 0) (r : Result A × Table)
    → ((a : A) (u : Table) → P a u → Q a u)
    → Ensures P r
    → Ensures Q r
Ensures-map P Q (ok a, u) h e = h a u e
Ensures-map P Q (err x, u) h e = tt

return_uncalled-Owns :
    (c : Contribution) (cs : List Contribution)
    → Distinct (ids_of cs)
    → Here c cs
    → c.folded ≡ false
    → All (λ x. x.committed ≤ c.committed) cs
    → All (Owns c.player_id) (build_pots (return_uncalled cs).1)
return_uncalled-Owns c cs d h f w =
    let v = runner_up cs in
    let (here, within) = capped-Owner v c cs h w in
    subst (λ l. All (Owns c.player_id) (build_pots l)) (sym (return_uncalled_lem cs d).0)
      (top_player_owns (capped v c) (map (capped v) cs) (subst Distinct (sym (ids-capped v cs)) d)
        here f within)

-- A showdown that returns has lost no chip and made none: with the players' ids distinct, and a
-- seated player `c` among them who has not folded and has committed the most, the stacks after it
-- and the rakes of the pots make up the stacks before it and all that was committed.
pub showdown_conserves :
    (c : Contribution) (i : ℕ) (t : Table)
    → Distinct (ids_of (contributions t.seats))
    → Here c (contributions t.seats)
    → c.folded ≡ false
    → All (λ x. x.committed ≤ c.committed) (contributions t.seats)
    → find_seat t.seats c.player_id ≡ some i
    → IsFraction t.config.rake_percent
    → Ensures
        (λ _ u.
          stacks u
            + sum_of
                (λ pot. (raked_of t pot.amount).rake)
                (build_pots (return_uncalled (contributions t.seats)).1)
          ≡ stacks t + sum_of (λ x. x.committed) (contributions t.seats))
        (run_showdown t)
showdown_conserves c i t d h f w at frac =
    let cs = contributions t.seats in
    let pots = build_pots (return_uncalled cs).1 in
    Ensures-map _ _ (run_showdown t)
      (λ _ u paid. omega (
        arith,
        paid,
        raked_total (setting c.player_id t) pots frac,
        build_pots-sum (return_uncalled cs).1,
        (return_uncalled_lem cs d).2,
      ))
      (showdown_pays c.player_id i t (return_uncalled-Owns c cs d h f w) at)
