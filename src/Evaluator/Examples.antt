-- ===== src/Evaluator/Examples.antt =====
-- Runs of the evaluator, and its theorems at concrete hands.
use vr_poker.Prelude.{
  ℕ, ◌≡◌, refl, Option, none, some, List, [], ◌∷◌, length, ◌++◌, ◌≤◌, Bool, true, false,
}
use vr_poker.Prelude.Sort.{sort_by}
use vr_poker.Cards.{Card, parse_cards}
use Prim.Native.String.{String}
use Prim.Native.Char.{code}
use vr_poker.Evaluator.{evaluate_five, evaluate_holdem, combos_7, hand_category}
use vr_poker.Evaluator.Best.{evaluate_holdem_best, HasFive}
use vr_poker.Evaluator.Choices.{chosen}

abbrev codes : String → List ℕ
codes String.[] = []
codes (String.◌∷◌ c s) = code c ∷ codes s

abbrev hand : String → Option (List Card)
hand s = parse_cards (codes s)

abbrev category : Option (List Card) → Option ℕ
category none = none
category (some h) = elim (evaluate_five h) [ none ↦ none | some v ↦ some (hand_category v) ]

categories :
    (category (hand "As Ks Qs Js Ts") ≡ some 8)
    × (category (hand "5s 4s 3s 2s As") ≡ some 8)
    × (category (hand "9s 9h 9d 9c As") ≡ some 7)
    × (category (hand "9s 9h 9d As Ac") ≡ some 6)
    × (category (hand "2s 9s Ks 3s 4s") ≡ some 5)
    × (category (hand "5s 4h 3s 2s As") ≡ some 4)
    × (category (hand "5s 5h 5d 2s As") ≡ some 3)
    × (category (hand "5s 5h 2d 2s As") ≡ some 2)
    × (category (hand "5s 5h 2d 3s As") ≡ some 1)
    × (category (hand "5s 7h 2d 3s As") ≡ some 0)
unfolding hand_category evaluate_five parse_cards sort_by
categories = (refl, refl, refl, refl, refl, refl, refl, refl, refl, refl)

combos_count : length combos_7 ≡ 21
unfolding combos_7
combos_count = refl

abbrev of : ℕ → ℕ → Card
of r s = record { rank = r; suit = s }

abbrev aces : List Card
aces = of 12 0 ∷ of 12 1 ∷ []

abbrev kings : List Card
kings = of 11 0 ∷ of 11 1 ∷ []

abbrev low_board : List Card
low_board = of 0 2 ∷ of 2 3 ∷ of 5 0 ∷ of 7 1 ∷ of 9 2 ∷ []

-- the second ace is left out, and the lowest card of the board
abbrev kept : List Bool
kept = true ∷ false ∷ false ∷ true ∷ true ∷ true ∷ true ∷ []

evaluate_holdem_best_example :
    (v w : ℕ) × (evaluate_holdem aces low_board ≡ some v)
    × (evaluate_five (chosen kept (aces ++ low_board)) ≡ some w)
    × (w ≤ v)
    × HasFive (aces ++ low_board) v
evaluate_holdem_best_example = evaluate_holdem_best aces low_board kept refl refl refl
