-- ===== src/Evaluator/Best.antt =====
-- packages/core/src/evaluator.ts: `evaluateSeven` finds the best five of seven cards.
use mathlib.Core.Option
use vr_poker.Prelude.{
  ℕ, ◌≤◌, ◌≡◌, ◌⊎◌, inl, inr, refl, ap, sym, ◌∙◌, Bool, Option, none, some, List, [], ◌∷◌, ◌++◌,
  map, arith, length, All, ltb, if◌then◌else◌, length-append, Bool-cases,
}
use vr_poker.Cards.{Card}
use vr_poker.Evaluator.Choices.{chosen, IsMarked, combos_7-Takes, combos_7-IsMarked}
use vr_poker.Evaluator.{
  evaluate_five, rate_five, unique_sorted_desc, straight_high, groups_of, all_suited, pick, best_of,
  combos_7, evaluate_seven, evaluate_holdem, compare_holdem, versus, Outcome, tie, first_wins,
  second_wins,
}

-- What is known of one choice of places when the best value is `v`.
abbrev pub AtMost : List Card → ℕ → List ℕ → Type 0
AtMost cards v idx = (w : ℕ) × (evaluate_five (pick cards idx) ≡ some w) × (w ≤ v)

-- Some choice of places has the value `v`.
abbrev pub Attains : List Card → ℕ → List (List ℕ) → Type 0
Attains cards v [] = ⊥
Attains cards v (idx ∷ rest) = (evaluate_five (pick cards idx) ≡ some v) ⊎ Attains cards v rest

evaluate_five-some : (h : List Card) → length h ≡ 5 → (v : ℕ) × (evaluate_five h ≡ some v)
unfolding evaluate_five
evaluate_five-some h e =
    let ranks = map (λ (c : Card). c.rank) h in
    let uniq = unique_sorted_desc ranks in
    (rate_five (all_suited h) (straight_high uniq) (groups_of ranks) uniq, ground arith)

AtMost-mono :
    (cards : List Card) (u v : ℕ) (cs : List (List ℕ))
    → u ≤ v
    → All (AtMost cards u) cs
    → All (AtMost cards v) cs
AtMost-mono cards u v [] h a = tt
AtMost-mono cards u v (c ∷ cs) h a =
    ((a.0.0, a.0.1, omega (arith, a.0.2)), AtMost-mono cards u v cs h a.1)

abbrev FiveOf : List Card → List ℕ → Type 0
FiveOf cards idx = length (pick cards idx) ≡ 5

-- `v` is the best value over `best` and the choices `cs`.
record BestIs (cards : List Card) (cs : List (List ℕ)) (best v : ℕ) : Type 0 where
  runs : best_of cards cs best ≡ some v
  above : best ≤ v
  bounds : All (AtMost cards v) cs
  hit : (v ≡ best) ⊎ Attains cards v cs

module _ (cards : List Card) (c : List ℕ) (cs : List (List ℕ)) (best w v : ℕ)
    (e : evaluate_five (pick cards c) ≡ some w) where
  BestIs-cons : BestIs cards cs (if ltb best w then w else best) v → BestIs cards (c ∷ cs) best v
  unfolding best_of
  BestIs-cons b = record {
    runs = rw (e, best_of) b.runs;
    above = ground (arith, b.above);
    bounds = ((w, e, ground (arith, b.above)), b.bounds);
    hit = elim (Bool-cases (ltb best w)) [
      | inl lt ↦ elim (rw lt at b.hit) [
        | inl same ↦ inr (inl (e ∙ ap some (sym same)))
        | inr later ↦ inr (inr later)
      ]
      | inr ge ↦ elim (rw ge at b.hit) [ inl same ↦ inl same | inr later ↦ inr (inr later) ]
    ];
  }

best_of_lem :
    (cards : List Card) (cs : List (List ℕ)) (best : ℕ)
    → All (FiveOf cards) cs
    → (v : ℕ) × BestIs cards cs best v
best_of_lem cards [] best f = (
  best,
  record { runs = unfold best_of in refl; above = omega arith; bounds = tt; hit = inl refl },
)
best_of_lem cards (c ∷ cs) best f =
    let (w, e) = evaluate_five-some (pick cards c) f.0 in
    let (v, b) = best_of_lem cards cs (if ltb best w then w else best) f.1 in
    (v, BestIs-cons cards c cs best w v e b)

-- Every choice of places takes five of any seven cards.
combos_7-FiveOf : (cards : List Card) → length cards ≡ 7 → All (FiveOf cards) combos_7
unfolding combos_7
combos_7-FiveOf (x1 ∷ x2 ∷ x3 ∷ x4 ∷ x5 ∷ x6 ∷ x7 ∷ []) h = omega arith
combos_7-FiveOf _ h = absurd (omega arith)

-- A best value that is the starting 0 is attained too: every choice then has the value 0.
attained :
    (cards : List Card) (c : List ℕ) (cs : List (List ℕ)) (v : ℕ)
    → BestIs cards (c ∷ cs) 0 v
    → Attains cards v (c ∷ cs)
attained cards c cs v b = elim b.hit [
  | inl z ↦ let (w, e, le) = b.bounds.0 in inl (e ∙ ap some (omega arith))
  | inr a ↦ a
]

evaluate_seven_best :
    (cards : List Card)
    → length cards ≡ 7
    → (v : ℕ) × (evaluate_seven cards ≡ some v)
      × All (AtMost cards v) combos_7
      × Attains cards v combos_7
unfolding evaluate_seven
evaluate_seven_best cards h =
    let (v, b) = best_of_lem cards combos_7 0 (combos_7-FiveOf cards h) in
    (v, ground (arith, b.runs), b.bounds, unfold combos_7 in attained cards _ _ v b)

-- Five of the cards, in their order, have the value.
abbrev pub HasFive : List Card → ℕ → Type 0
HasFive cards v =
    (keep : List Bool) × (length (chosen keep cards) ≡ 5)
    × (evaluate_five (chosen keep cards) ≡ some v)

Attains-HasFive :
    (cards : List Card) (v : ℕ) (cs : List (List ℕ))
    → All (FiveOf cards) cs
    → All (IsMarked cards cards) cs
    → Attains cards v cs
    → HasFive cards v
Attains-HasFive cards v [] f m h = absurd h
Attains-HasFive cards v (c ∷ cs) f m (inl e) =
    let (keep, same) = m.0 in (keep, ap length (sym same) ∙ f.0, sym (ap evaluate_five same) ∙ e)
Attains-HasFive cards v (c ∷ cs) f m (inr h) = Attains-HasFive cards v cs f.1 m.1 h

-- For two hole cards and a board of five, `evaluateHoldem` returns a value: five of the seven cards
-- have it, and whichever five of the seven are kept, they have a value, which is no higher.
pub evaluate_holdem_best :
    (hole board : List Card) (keep : List Bool)
    → length hole ≡ 2
    → length board ≡ 5
    → length (chosen keep (hole ++ board)) ≡ 5
    → (v w : ℕ) × (evaluate_holdem hole board ≡ some v)
      × (evaluate_five (chosen keep (hole ++ board)) ≡ some w)
      × (w ≤ v)
      × HasFive (hole ++ board) v
unfolding evaluate_holdem
evaluate_holdem_best hole board keep h k five =
    let cards = hole ++ board in
    let seven : length cards ≡ 7 = omega (arith, length-append hole board, h, k) in
    let (v, e, all, hit) = evaluate_seven_best cards seven in
    let (idx, (w, value, le), same) = combos_7-Takes cards (AtMost cards v) keep seven five all in
    let marked = combos_7-IsMarked cards seven in
    (
      v,
      w,
      ground (arith, e),
      sym (ap evaluate_five same) ∙ value,
      le,
      Attains-HasFive cards v combos_7 (combos_7-FiveOf cards seven) marked hit,
    )

abbrev pub swapped : Outcome → Outcome
swapped tie = tie
swapped first_wins = second_wins
swapped second_wins = first_wins

versus_swap : (x y : Option ℕ) → versus y x ≡ Option.map swapped (versus x y)
unfolding versus
versus_swap (some u) (some v) = ground arith
versus_swap (some u) none = refl
versus_swap none (some v) = refl
versus_swap none none = refl

-- `compareHoldem` of the two hands in the other order has the opposite result, and fails when
-- the other fails.
pub compare_holdem_swap :
    (a b board : List Card)
    → compare_holdem b a board ≡ Option.map swapped (compare_holdem a b board)
unfolding compare_holdem
compare_holdem_swap a b board = versus_swap (evaluate_holdem a board) (evaluate_holdem b board)
