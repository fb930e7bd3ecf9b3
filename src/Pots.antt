-- ===== src/Pots.antt =====
-- packages/core/src/pots.ts: uncalled bets, side pots, the rake and the split of a pot.
-- Player identifiers are only compared, so they are numbers. Chips are numbers that are not
-- negative. The product of a pot with the rake fraction is a floating-point product: it is given
-- by the configuration, as a `Rate`.
pub mod Uncalled
pub mod Layers
pub mod Barred
pub mod Entitled
pub mod Owned
pub mod Shares
mod Examples
use vr_poker.Prelude.{
  ℕ, zero, suc, ◌+◌, ◌-◌, ◌*◌, ◌/◌, ◌≤◌, Bool, true, false, not, Option, none, some, List, [], ◌∷◌,
  map, ltb, ◌==◌, if◌then◌else◌, length, set, keep, min,
}
use vr_poker.Prelude.Sort.{sort_by}

pub record PotShare : Type 0 where
  pub player_id : ℕ
  pub amount : ℕ

pub record Pot : Type 0 where
  pub amount : ℕ
  pub eligible : List ℕ

pub record Contribution : Type 0 where
  pub player_id : ℕ
  pub committed : ℕ
  pub folded : Bool

-- A contribution with its place in the list: the sorted copy shares its objects with the list, so
-- a write through the copy is a write at that place.
abbrev pub Placed : Type 0
Placed = ℕ × Contribution

abbrev place_from : ℕ → List Contribution → List Placed
place_from i [] = []
place_from i (c ∷ cs) = (i, c) ∷ place_from (suc i) cs

-- `b.committed - a.committed` is negative
abbrev more_committed : Placed → Placed → Bool
more_committed a b = ltb b.1.committed a.1.committed

abbrev pub with_committed : ℕ → Contribution → Contribution
with_committed v c = record c { committed = v }

-- `contribs.find((c) => c.playerId === id)!.committed = v`
abbrev set_committed : ℕ → ℕ → List Contribution → List Contribution
set_committed id v [] = []
set_committed id v (c ∷ cs) =
    let rest = c ∷ set_committed id v cs in
    if c.player_id == id then with_committed v c ∷ cs else rest

-- the committed chips of the first element, `?.committed ?? 0`
abbrev head_committed : List Placed → ℕ
head_committed [] = 0
head_committed (p ∷ ps) = p.1.committed

return_sorted : List Placed → List Contribution → List PotShare × List Contribution
return_sorted [] cs = ([], cs)
return_sorted ((i, top) ∷ rest) cs =
    let extra = top.committed - head_committed rest in
    if extra == 0 then ([], cs) else (
      record { player_id = top.player_id; amount = extra } ∷ [],
      set_committed top.player_id (top.committed - extra)
          (set cs i (with_committed (top.committed - extra) top)),
    )

-- `returnUncalled`: the shares to give back, and the contributions after the writes.
unfoldable pub return_uncalled : List Contribution → List PotShare × List Contribution
unfolding return_sorted
return_uncalled cs = return_sorted (sort_by more_committed (place_from 0 cs)) cs

abbrev pub has_chips : Contribution → Bool
has_chips c = ltb 0 c.committed

abbrev least : ℕ → List Contribution → ℕ
least m [] = m
least m (c ∷ cs) = least (min m c.committed) cs

-- `Math.min(...active.map((c) => c.committed))`, of a list that is not empty
abbrev pub level_of : List Contribution → ℕ
level_of [] = 0
level_of (c ∷ cs) = least c.committed cs

-- `c.committed -= level` for the active contributions of `remaining`
abbrev pub lower_all : ℕ → List Contribution → List Contribution
lower_all level [] = []
lower_all level (c ∷ cs) =
    (if has_chips c then with_committed (c.committed - level) c else c) ∷ lower_all level cs

abbrev pub eligible_ids : List Contribution → List ℕ
eligible_ids [] = []
eligible_ids (c ∷ cs) =
    let rest = eligible_ids cs in if not c.folded then c.player_id ∷ rest else rest

-- One round of the `while` loop. `amount` adds `level` once for each active contribution.
abbrev pub layer : List Contribution → Pot
layer remaining =
    let active = keep has_chips remaining in
    record { amount = length active * level_of active; eligible = eligible_ids active }

-- The loop, on fuel; both branches of the source push the same pot when `amount > 0`.
unfoldable pub build_loop : ℕ → List Contribution → List Pot
build_loop zero remaining = []
build_loop (suc fuel) remaining =
    let active = keep has_chips remaining in
    let pot = layer remaining in
    let rest = build_loop fuel (lower_all (level_of active) remaining) in
    elim active [ [] ↦ [] | c ∷ cs ↦ if ltb 0 pot.amount then pot ∷ rest else rest ]

-- `buildPots`. Each round uses up one contribution at least.
unfoldable pub build_pots : List Contribution → List Pot
unfolding build_loop
build_pots cs = let remaining = keep has_chips cs in build_loop (length remaining) remaining

-- A rake fraction: `percent > 0`, and `Math.floor(n * percent)` for a number of chips.
pub record Rate : Type 0 where
  pub positive : Bool
  pub floor_of : ℕ → ℕ

-- The fraction is at most one.
abbrev pub IsFraction : Rate → Type 0
IsFraction r = (n : ℕ) → r.floor_of n ≤ n

pub record Raked : Type 0 where
  pub net : ℕ
  pub rake : ℕ

-- `takeRake`; with a fraction above one the source would return a negative `net`.
unfoldable pub take_rake : ℕ → Rate → ℕ → Raked
take_rake pot percent cap =
    if pot == 0
    then record { net = pot; rake = 0 }
    else if not percent.positive
    then record { net = pot; rake = 0 }
    else let rake = min cap (percent.floor_of pot) in record { net = pot - rake; rake = rake }

abbrev share_list : ℕ → List ℕ → List PotShare
share_list n [] = []
share_list n (id ∷ ids) = record { player_id = id; amount = n } ∷ share_list n ids

-- `splitPot`: the first winner takes the leftover.
unfoldable pub split_pot : ℕ → List ℕ → List PotShare
split_pot amount [] = []
split_pot amount (id ∷ ids) =
    if amount == 0
    then []
    else let count = length (id ∷ ids) in
      let share = amount / count in
      record { player_id = id; amount = share + (amount - share * count) } ∷ share_list share ids
