-- ===== src/Pots/Shares.antt =====
-- packages/core/src/pots.ts: `takeRake` and `splitPot`.
use native.Mathlib.Nat.{div-add-mod', mod-lt}
use vr_poker.Prelude.{
  ℕ, suc, ◌+◌, ◌-◌, ◌*◌, ◌/◌, ◌≤◌, ◌<◌, ◌≡◌, ◌≢◌, refl, ap, false, List, [], ◌∷◌, map, arith,
  length, All,
}
use vr_poker.Prelude.Sums.{sum_of}
use vr_poker.Pots.{PotShare, Rate, IsFraction, take_rake, share_list, split_pot}

abbrev amount_of : PotShare → ℕ
amount_of s = s.amount

sum-share_list : (n : ℕ) (ids : List ℕ) → sum_of amount_of (share_list n ids) ≡ length ids * n
sum-share_list n [] = omega arith
sum-share_list n (id ∷ ids) = omega (arith, sum-share_list n ids)

ids-share_list : (n : ℕ) (ids : List ℕ) → map (λ s. s.player_id) (share_list n ids) ≡ ids
ids-share_list n [] = refl
ids-share_list n (id ∷ ids) = ap (◌∷◌ id) (ids-share_list n ids)

-- A share is the whole part of the quotient, or up to one chip less than a chip for each winner
-- more.
abbrev pub IsFairShare : ℕ → ℕ → PotShare → Type 0
IsFairShare amount count s = (amount / count ≤ s.amount) × (s.amount < amount / count + count)

share_list-IsFairShare :
    (amount k : ℕ) (ids : List ℕ)
    → All (IsFairShare amount (suc k)) (share_list (amount / suc k) ids)
share_list-IsFairShare amount k [] = tt
share_list-IsFairShare amount k (id ∷ ids) =
    ((omega arith, omega arith), share_list-IsFairShare amount k ids)

-- The leftover of a division is smaller than the divisor.
leftover_bound : (amount k : ℕ) → amount - amount / suc k * suc k < suc k
leftover_bound amount k =
    omega (arith, div-add-mod' amount (suc k), mod-lt amount {m = suc k} (omega arith))

-- Whenever there is a winner, the shares of a pot of at least one chip add up to the pot, go to
-- the winners in their order, and differ from the whole quotient by less than the number of
-- winners.
pub split_pot_fair :
    (amount : ℕ) (ids : List ℕ)
    → 0 < amount
    → ids ≢ []
    → (sum_of (λ s. s.amount) (split_pot amount ids) ≡ amount)
      × (map (λ s. s.player_id) (split_pot amount ids) ≡ ids)
      × All (IsFairShare amount (length ids)) (split_pot amount ids)
unfolding split_pot
split_pot_fair amount [] pos h = absurd (h refl)
split_pot_fair amount (id ∷ ids) pos h =
    let k = length ids in
    ground (
      arith,
      sum-share_list (amount / suc k) ids,
      ids-share_list (amount / suc k) ids,
      share_list-IsFairShare amount k ids,
      leftover_bound amount k,
      div-add-mod' amount (suc k),
    )

-- With no hypothesis on the pot: the shares add up to the pot whenever there is a winner.
pub split_pot-sum :
    (amount : ℕ) (ids : List ℕ) → ids ≢ [] → sum_of (λ s. s.amount) (split_pot amount ids) ≡ amount
unfolding split_pot
split_pot-sum amount [] h = absurd (h refl)
split_pot-sum amount (id ∷ ids) h =
    ground (
      arith,
      sum-share_list (amount / suc (length ids)) ids,
      div-add-mod' amount (suc (length ids)),
    )

-- The rake of a pot and what is left of it add up to the pot; the rake is at most the cap and at
-- most the fraction of the pot, and nothing is taken when the fraction is not positive.
pub take_rake_lem :
    (pot : ℕ) (percent : Rate) (cap : ℕ)
    → IsFraction percent
    → let r = take_rake pot percent cap in
      (r.net + r.rake ≡ pot)
      × (r.rake ≤ cap)
      × (r.rake ≤ percent.floor_of pot)
      × (percent.positive ≡ false → r.rake ≡ 0)
unfolding take_rake
take_rake_lem pot percent cap h = ground (arith, h pot)
