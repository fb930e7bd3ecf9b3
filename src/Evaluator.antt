-- ===== src/Evaluator.antt =====
-- packages/core/src/evaluator.ts: the value of a five-card hand, of the best five of seven cards,
-- and of a hold'em hand. `none` is a thrown error.
pub mod Value
pub mod Choices
pub mod Best
mod Examples
use Prim.Native.Nat.{bit_and, bit_or}
use vr_poker.Prelude.{
  ℕ, zero, suc, ◌+◌, ◌-◌, ◌*◌, ◌/◌, ◌^◌, ◌≤◌, Bool, true, false, ◌&&◌, ◌||◌, Option, none, some,
  List, [], ◌∷◌, ◌++◌, map, ltb, leb, ◌==◌, if◌then◌else◌, length, get_elem?, get_or, every, member,
  keep, find, dedupe, replicate, not,
}
use vr_poker.Prelude.Sort.{sort_by}
use vr_poker.Cards.{Card}

abbrev pub cat_high : ℕ
cat_high = 0

abbrev pub cat_pair : ℕ
cat_pair = 1

abbrev pub cat_two_pair : ℕ
cat_two_pair = 2

abbrev pub cat_trips : ℕ
cat_trips = 3

abbrev pub cat_straight : ℕ
cat_straight = 4

abbrev pub cat_flush : ℕ
cat_flush = 5

abbrev pub cat_full_house : ℕ
cat_full_house = 6

abbrev pub cat_quads : ℕ
cat_quads = 7

abbrev pub cat_straight_flush : ℕ
cat_straight_flush = 8

-- `(value >>> 20) & 0xf`
unfoldable pub hand_category : ℕ → ℕ
hand_category value = bit_and (value / 2 ^ 20) 15

-- `CATEGORY_NAME`, with a last name for any other category
pub data CategoryName : Type 0 where
  high_card pair two_pair three_of_a_kind straight flush : CategoryName
  full_house four_of_a_kind straight_flush unknown : CategoryName

abbrev category_names : List CategoryName
category_names =
    high_card ∷ pair ∷ two_pair ∷ three_of_a_kind ∷ straight ∷ flush ∷ full_house ∷ four_of_a_kind
    ∷ straight_flush ∷ []

unfoldable pub category_name : ℕ → CategoryName
unfolding hand_category
category_name value = get_or category_names (hand_category value) unknown

-- `while (padded.length < 5) padded.push(0)`
abbrev padded : List ℕ → List ℕ
padded kickers = kickers ++ replicate (5 - length kickers) 0

-- the rounds `i`, `i + 1`, …, `i + left - 1` of the loop in `pack`
pack_loop : List ℕ → ℕ → ℕ → ℕ → ℕ
pack_loop ks i zero v = v
pack_loop ks i (suc left) v =
    pack_loop ks (suc i) left (bit_or v (bit_and (get_or ks i 0) 15 * 2 ^ (16 - i * 4)))

unfoldable pub pack : ℕ → List ℕ → ℕ
unfolding pack_loop
pack category kickers = pack_loop (padded kickers) 0 5 (bit_and category 15 * 2 ^ 20)

-- `b - a` is negative
abbrev higher : ℕ → ℕ → Bool
higher a b = ltb b a

unfoldable pub unique_sorted_desc : List ℕ → List ℕ
unique_sorted_desc ranks = sort_by higher (dedupe ranks)

-- five ranks that fall by one each time, from the highest; `hi - 1` in the source may be -1
abbrev falls : List ℕ → Bool
falls (h ∷ a ∷ b ∷ c ∷ d ∷ rest) = a + 1 == h && b + 2 == h && c + 3 == h && d + 4 == h
falls _ = false

-- the loop over the windows of five ranks
abbrev window : List ℕ → Option ℕ
window [] = none
window (h ∷ rest) = let later = window rest in if falls (h ∷ rest) then some h else later

unfoldable pub straight_high : List ℕ → Option ℕ
straight_high ranks = if ltb (length ranks) 5 then none else elim (window ranks) [
  | some h ↦ some h
  | none ↦
      if member 12 ranks && member 0 ranks && member 1 ranks && member 2 ranks && member 3 ranks
      then some 3
      else none
]

pub record Group : Type 0 where
  pub rank : ℕ
  pub n : ℕ

abbrev count_rank : ℕ → List ℕ → ℕ
count_rank r [] = 0
count_rank r (x ∷ xs) = let rest = count_rank r xs in if x == r then suc rest else rest

-- the loop from rank 12 down to 0, at the ranks below `k`
abbrev groups_below : ℕ → List ℕ → List Group
groups_below zero ranks = []
groups_below (suc r) ranks =
    let rest = groups_below r ranks in
    let n = count_rank r ranks in if n == 0 then rest else record { rank = r; n = n } ∷ rest

-- `b.n - a.n || b.rank - a.rank` is negative
abbrev group_before : Group → Group → Bool
group_before a b = ltb b.n a.n || (a.n == b.n && ltb b.rank a.rank)

unfoldable pub groups_of : List ℕ → List Group
groups_of ranks = sort_by group_before (groups_below 13 ranks)

abbrev singles : List Group → List ℕ
singles [] = []
singles (g ∷ gs) = let rest = singles gs in if g.n == 1 then g.rank ∷ rest else rest

-- the flush test: every card has the suit of the first
abbrev all_suited : List Card → Bool
all_suited [] = true
all_suited (c ∷ cs) = every (λ x. x.suit == c.suit) (c ∷ cs)

abbrev has_n : ℕ → ℕ → List Group → Bool
has_n i n gs = elim (get_elem? gs i) [ none ↦ false | some g ↦ g.n == n ]

abbrev rank_at : ℕ → List Group → ℕ
rank_at i gs = elim (get_elem? gs i) [ none ↦ 0 | some g ↦ g.rank ]

abbrev first_single : List Group → ℕ
first_single gs = elim (find (λ g. g.n == 1) gs) [ none ↦ 0 | some g ↦ g.rank ]

-- The tests of `evaluateFive` from the top, on the flush test, the straight, the groups and the
-- distinct ranks. A group that a branch reads is there: five cards of which four (or three, or
-- two) are alike leave others.
unfoldable pub rate_five : Bool → Option ℕ → List Group → List ℕ → ℕ
unfolding pack
rate_five true (some h) gs uniq = pack cat_straight_flush (h ∷ [])
rate_five suited s gs uniq =
    if has_n 0 4 gs
    then pack cat_quads (rank_at 0 gs ∷ rank_at 1 gs ∷ [])
    else if has_n 0 3 gs && has_n 1 2 gs
    then pack cat_full_house (rank_at 0 gs ∷ rank_at 1 gs ∷ [])
    else if suited
    then pack cat_flush uniq
    else elim s [
      | some h ↦ pack cat_straight (h ∷ [])
      | none ↦
          if has_n 0 3 gs
          then pack cat_trips (rank_at 0 gs ∷ singles gs)
          else if has_n 0 2 gs && has_n 1 2 gs
          then pack cat_two_pair
              (sort_by higher (rank_at 0 gs ∷ rank_at 1 gs ∷ []) ++ (first_single gs ∷ []))
          else if has_n 0 2 gs
          then pack cat_pair (rank_at 0 gs ∷ singles gs)
          else pack cat_high uniq
    ]

unfoldable pub evaluate_five : List Card → Option ℕ
unfolding rate_five straight_high groups_of unique_sorted_desc
evaluate_five cards =
    let ranks = map (λ c. c.rank) cards in
    let uniq = unique_sorted_desc ranks in
    if length cards == 5
    then some (rate_five (all_suited cards) (straight_high uniq) (groups_of ranks) uniq)
    else none

-- `COMBOS_7`: the nested loops, choosing `k` places among the `left` ones from `start`.
pub combos : ℕ → ℕ → ℕ → List (List ℕ)
combos zero left start = [] ∷ []
combos (suc k) zero start = []
combos (suc k) (suc left) start =
    map (◌∷◌ start) (combos k left (suc start)) ++ combos (suc k) left (suc start)

unfoldable pub combos_7 : List (List ℕ)
unfolding combos
combos_7 = combos 5 7 0

-- `[cards[idx[0]!], …]`; the places are all below 7
abbrev pub pick : List Card → List ℕ → List Card
pick cards [] = []
pick cards (i ∷ is) = elim (get_elem? cards i) [ none ↦ pick cards is | some c ↦ c ∷ pick cards is ]

unfoldable pub best_of : List Card → List (List ℕ) → ℕ → Option ℕ
unfolding evaluate_five
best_of cards [] best = some best
best_of cards (idx ∷ rest) best = elim (evaluate_five (pick cards idx)) [
  | none ↦ none
  | some v ↦ best_of cards rest (if ltb best v then v else best)
]

unfoldable pub evaluate_seven : List Card → Option ℕ
unfolding best_of combos_7
evaluate_seven cards = if length cards == 7 then best_of cards combos_7 0 else none

unfoldable pub evaluate_holdem : List Card → List Card → Option ℕ
unfolding evaluate_seven
evaluate_holdem hole board =
    if not (length hole == 2)
    then none
    else if not (length board == 5)
    then none
    else evaluate_seven (hole ++ board)

-- the results 0, 1 and -1 of `compareHoldem`
pub data Outcome : Type 0 where
  tie first_wins second_wins : Outcome

-- the comparison of the two values, once both are there
versus : Option ℕ → Option ℕ → Option Outcome
versus (some va) (some vb) =
    some (if va == vb then tie else if ltb vb va then first_wins else second_wins)
versus _ _ = none

unfoldable pub compare_holdem : List Card → List Card → List Card → Option Outcome
unfolding evaluate_holdem versus
compare_holdem a b board = versus (evaluate_holdem a board) (evaluate_holdem b board)
