-- ===== src/Pots/Uncalled.antt =====
-- packages/core/src/pots.ts: `returnUncalled`, which gives back the chips that nobody called.
use native.Mathlib.Nat.{zero-add, add-zero, add-suc, suc-add}
use vr_poker.Prelude.{
  ℕ, zero, suc, ◌+◌, ◌-◌, ◌≤◌, ◌<◌, ◌≡◌, refl, true, false, some, List, [], ◌∷◌, map, arith,
  get_elem?, set, All, member, min, max,
}
use vr_poker.Prelude.Sums.{sum_of, sum_of-set}
use vr_poker.Prelude.Sort.{insert_by, sort_by, sort_by-All}
use vr_poker.Pots.{
  PotShare, Contribution, Placed, place_from, more_committed, with_committed, set_committed,
  head_committed, return_sorted, return_uncalled,
}

-- The largest and the second largest commitment, 0 where there is none.
abbrev pub most : List Contribution → ℕ
most [] = 0
most (c ∷ cs) = max c.committed (most cs)

abbrev pub runner_up : List Contribution → ℕ
runner_up [] = 0
runner_up (c ∷ cs) = max (min c.committed (most cs)) (runner_up cs)

-- No player has two contributions.
abbrev pub ids_of : List Contribution → List ℕ
ids_of = map (λ c. c.player_id)

abbrev pub Distinct : List ℕ → Type 0
Distinct [] = Unit
Distinct (x ∷ xs) = (member x xs ≡ false) × Distinct xs

-- A contribution cut down to at most `v`.
abbrev pub capped : ℕ → Contribution → Contribution
capped v c = with_committed (min c.committed v) c

pub runner_up-le-most : (cs : List Contribution) → runner_up cs ≤ most cs
runner_up-le-most [] = omega arith
runner_up-le-most (c ∷ cs) = omega (arith, runner_up-le-most cs)

insert-head :
    (p : Placed) (ps : List Placed)
    → head_committed (insert_by more_committed p ps) ≡ max p.1.committed (head_committed ps)
unfolding insert_by
insert-head p [] = omega arith
insert-head p (q ∷ qs) = ground arith

abbrev next_committed : List Placed → ℕ
next_committed [] = 0
next_committed (p ∷ ps) = head_committed ps

insert-next :
    (p : Placed) (ps : List Placed)
    → next_committed ps ≤ head_committed ps
    → next_committed (insert_by more_committed p ps)
      ≡ max (min p.1.committed (head_committed ps)) (next_committed ps)
unfolding insert_by
insert-next p [] h = omega arith
insert-next p (q ∷ qs) h = ground (arith, insert-head p qs)

abbrev sorted_from : ℕ → List Contribution → List Placed
sorted_from i cs = sort_by more_committed (place_from i cs)

-- Sorting brings the two largest commitments to the front.
sorted_from-top :
    (i : ℕ) (cs : List Contribution)
    → (head_committed (sorted_from i cs) ≡ most cs)
      × (next_committed (sorted_from i cs) ≡ runner_up cs)
unfolding sort_by
sorted_from-top i [] = (refl, refl)
sorted_from-top i (c ∷ cs) =
    let (top, next) = sorted_from-top (suc i) cs in
    let below = runner_up-le-most cs in
    (
      omega (arith, insert-head (i, c) (sorted_from (suc i) cs)),
      omega (arith, insert-next (i, c) (sorted_from (suc i) cs) (omega arith)),
    )

-- A placed contribution stands at its place.
abbrev StandsIn : List Contribution → Placed → Type 0
StandsIn cs p = get_elem? cs p.0 ≡ some p.1

place_from-StandsIn :
    (all : List Contribution) (k : ℕ) (cs : List Contribution)
    → ((m : ℕ) → get_elem? all (k + m) ≡ get_elem? cs m)
    → All (StandsIn all) (place_from k cs)
place_from-StandsIn all k [] h = tt
place_from-StandsIn all k (c ∷ cs) h = (
  rw (add-zero) at (h 0),
  place_from-StandsIn all (suc k) cs (λ m. rw (suc-add, ← add-suc) (h (suc m))),
)

get-le-most :
    (cs : List Contribution) (i : ℕ) {c : Contribution}
    → get_elem? cs i ≡ some c
    → c.committed ≤ most cs
get-le-most [] i h = cc
get-le-most (x ∷ cs) zero h = ground arith
get-le-most (x ∷ cs) (suc i) h = omega (arith, get-le-most cs i h)

map-capped_id : (v : ℕ) (cs : List Contribution) → most cs ≤ v → map (capped v) cs ≡ cs
map-capped_id v [] h = refl
map-capped_id v (c ∷ cs) h = ground (arith, map-capped_id v cs)

-- Where only the contribution at `i` is above `v`, lowering it to `v` caps all of them.
set-eq-map-capped :
    (v : ℕ) (cs : List Contribution) (i : ℕ) {c : Contribution}
    → get_elem? cs i ≡ some c
    → runner_up cs ≤ v
    → v < c.committed
    → set cs i (with_committed v c) ≡ map (capped v) cs
set-eq-map-capped v [] i g le lt = cc
set-eq-map-capped v (x ∷ cs) zero g le lt = ground (arith, map-capped_id v cs)
set-eq-map-capped v (x ∷ cs) (suc i) g le lt =
    ground (arith, set-eq-map-capped v cs i g, get-le-most cs i g)

get-member :
    (cs : List Contribution) (i : ℕ) {c : Contribution}
    → get_elem? cs i ≡ some c
    → member c.player_id (ids_of cs) ≡ true
get-member [] i h = cc
get-member (x ∷ cs) zero h = ground arith
get-member (x ∷ cs) (suc i) h = ground (arith, get-member cs i h)

-- The second write, through the list, finds the object that the first one changed.
set_committed-set :
    (v : ℕ) (cs : List Contribution) (i : ℕ) {c : Contribution}
    → get_elem? cs i ≡ some c
    → Distinct (ids_of cs)
    → set_committed c.player_id v (set cs i (with_committed v c)) ≡ set cs i (with_committed v c)
set_committed-set v [] i g d = cc
set_committed-set v (x ∷ cs) zero g d = ground arith
set_committed-set v (x ∷ cs) (suc i) g d =
    ground (arith, set_committed-set v cs i g d.1, get-member cs i g)

abbrev pub amount_of : PotShare → ℕ
amount_of s = s.amount

abbrev pub committed_of : Contribution → ℕ
committed_of c = c.committed

module _ (cs : List Contribution) (d : Distinct (ids_of cs)) where
  return_sorted-capped :
      (ps : List Placed)
      → All (StandsIn cs) ps
      → head_committed ps ≡ most cs
      → next_committed ps ≡ runner_up cs
      → ((return_sorted ps cs).1 ≡ map (capped (runner_up cs)) cs)
        × (sum_of amount_of (return_sorted ps cs).0 ≡ most cs - runner_up cs)
        × (sum_of committed_of (return_sorted ps cs).1 + sum_of amount_of (return_sorted ps cs).0
            ≡ sum_of committed_of cs)
  unfolding return_sorted
  return_sorted-capped [] a h n =
      ground (arith, map-capped_id (runner_up cs) cs, runner_up-le-most cs)
  return_sorted-capped ((i, c) ∷ ps) a h n = ground (
    arith,
    map-capped_id (runner_up cs) cs,
    runner_up-le-most cs,
    set-eq-map-capped (runner_up cs) cs i a.0,
    set_committed-set (runner_up cs) cs i a.0 d,
    sum_of-set committed_of cs i (with_committed (runner_up cs) c) a.0,
  )

  -- Where no player has two contributions, `returnUncalled` leaves every contribution capped at
  -- the second largest commitment, gives back exactly the chips above it, and so creates and
  -- loses none.
  pub return_uncalled_lem :
      let (shares, after) = return_uncalled cs in
      (after ≡ map (capped (runner_up cs)) cs)
      × (sum_of (λ s. s.amount) shares ≡ most cs - runner_up cs)
      × (sum_of (λ c. c.committed) after + sum_of (λ s. s.amount) shares
          ≡ sum_of (λ c. c.committed) cs)
  unfolding return_uncalled
  return_uncalled_lem =
      return_sorted-capped (sorted_from 0 cs)
        (sort_by-All (StandsIn cs) more_committed (place_from 0 cs)
          (place_from-StandsIn cs 0 cs (λ m. rw zero-add refl)))
        (sorted_from-top 0 cs).0 (sorted_from-top 0 cs).1
