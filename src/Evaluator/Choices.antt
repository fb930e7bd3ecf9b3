-- ===== src/Evaluator/Choices.antt =====
-- packages/core/src/evaluator.ts: `COMBOS_7` against the choices of cards from a hand, which are told
-- without places: a mark for each card says whether it is kept.
use vr_poker.Prelude.{
  ℕ, zero, suc, ◌≡◌, refl, ap, ◌∙◌, Bool, true, false, some, List, [], ◌∷◌, ◌++◌, map, arith,
  length, get_elem?, length-append, All, All-append,
}
use vr_poker.Cards.{Card}
use vr_poker.Evaluator.{combos, combos_7, pick}

-- The cards that are marked, in their order.
abbrev pub chosen : List Bool → List Card → List Card
chosen [] cards = []
chosen (b ∷ bs) [] = []
chosen (true ∷ bs) (x ∷ xs) = x ∷ chosen bs xs
chosen (false ∷ bs) (x ∷ xs) = chosen bs xs

-- Some choice of places for which `P` holds takes the cards `hand`.
abbrev pub Takes : List Card → (List ℕ → Type 0) → List Card → Type 0
Takes cards P hand = (idx : List ℕ) × P idx × (pick cards idx ≡ hand)

-- The choice of places takes the cards of some marks.
abbrev pub IsMarked : List Card → List Card → List ℕ → Type 0
IsMarked cards rest idx = (bs : List Bool) × (pick cards idx ≡ chosen bs rest)

All-of_append :
    (P : List ℕ → Type 0) (xs ys : List (List ℕ)) → All P (xs ++ ys) → All P xs × All P ys
All-of_append P [] ys h = (tt, h)
All-of_append P (x ∷ xs) ys h = let (a, b) = All-of_append P xs ys h.1 in ((h.0, a), b)

All-of_map :
    (P : List ℕ → Type 0) (f : List ℕ → List ℕ) (xs : List (List ℕ))
    → All P (map f xs)
    → All (λ x. P (f x)) xs
All-of_map P f [] h = tt
All-of_map P f (x ∷ xs) h = (h.0, All-of_map P f xs h.1)

All-map :
    (P Q : List ℕ → Type 0) (f : List ℕ → List ℕ) (xs : List (List ℕ))
    → ((x : List ℕ) → P x → Q (f x))
    → All P xs
    → All Q (map f xs)
All-map P Q f [] k h = tt
All-map P Q f (x ∷ xs) k h = (k x h.0, All-map P Q f xs k h.1)

append_one :
    (front : List Card) (x : Card) (rest : List Card)
    → front ++ (x ∷ rest) ≡ (front ++ (x ∷ [])) ++ rest
append_one [] x rest = refl
append_one (y ∷ ys) x rest = ap (λ t. y ∷ t) (append_one ys x rest)

-- The card after the first ones has their number as its place.
at_place :
    (front : List Card) (x : Card) (rest : List Card) (start : ℕ)
    → length front ≡ start
    → get_elem? (front ++ (x ∷ rest)) start ≡ some x
at_place [] x rest zero h = refl
at_place [] x rest (suc n) h = absurd (omega (arith, h))
at_place (y ∷ ys) x rest zero h = absurd (omega (arith, h))
at_place (y ∷ ys) x rest (suc n) h = at_place ys x rest n (omega (arith, h))

no_cards : (hand : List Card) → length hand ≡ 0 → [] ≡ hand
no_cards [] h = refl
no_cards (x ∷ xs) h = absurd (omega (arith, h))

pick-here :
    (cards : List Card) (x : Card) (start : ℕ) (idx : List ℕ)
    → get_elem? cards start ≡ some x
    → pick cards (start ∷ idx) ≡ x ∷ pick cards idx
pick-here cards x start idx e = rw (pick, e) refl

module _ (cards : List Card) where
  -- The cards are some first ones, as many as the place says, and the rest.
  abbrev Splits : List Card → List Card → ℕ → Type 0
  Splits front rest start = (cards ≡ front ++ rest) × (length front ≡ start)

  later :
      (front : List Card) (x : Card) (rest : List Card) (start : ℕ)
      → Splits front (x ∷ rest) start
      → Splits (front ++ (x ∷ [])) rest (suc start)
  later front x rest start s =
      (s.0 ∙ append_one front x rest, omega (arith, s.1, length-append front (x ∷ [])))

  here :
      (front : List Card) (x : Card) (rest : List Card) (start : ℕ)
      → Splits front (x ∷ rest) start
      → get_elem? cards start ≡ some x
  here front x rest start s = rw s.0 (at_place front x rest start s.1)

  -- Every choice of `k` cards from a place on is among the choices of places.
  combos-Takes :
      (k : ℕ) (front rest : List Card) (start : ℕ) (P : List ℕ → Type 0) (bs : List Bool)
      → Splits front rest start
      → length (chosen bs rest) ≡ k
      → All P (combos k (length rest) start)
      → Takes cards P (chosen bs rest)
  unfolding combos
  combos-Takes zero front rest start P bs s n a = ([], a.0, no_cards (chosen bs rest) n)
  combos-Takes (suc k) front [] start P [] s n a = absurd (omega (arith, n))
  combos-Takes (suc k) front [] start P (b ∷ bs) s n a = absurd (omega (arith, n))
  combos-Takes (suc k) front (x ∷ rest) start P [] s n a = absurd (omega (arith, n))
  combos-Takes (suc k) front (x ∷ rest) start P (true ∷ bs) s n a =
      let (first, others) =
        All-of_append P (map (◌∷◌ start) (combos k (length rest) (suc start)))
          (combos (suc k) (length rest) (suc start)) a in
      let (idx, p, e) =
        combos-Takes k (front ++ (x ∷ [])) rest (suc start) (λ i. P (start ∷ i)) bs
          (later front x rest start s) (omega (arith, n))
          (All-of_map P (◌∷◌ start) (combos k (length rest) (suc start)) first) in
      (start ∷ idx, p, pick-here cards x start idx (here front x rest start s) ∙ ap (λ t. x ∷ t) e)
  combos-Takes (suc k) front (x ∷ rest) start P (false ∷ bs) s n a =
      let (first, others) =
        All-of_append P (map (◌∷◌ start) (combos k (length rest) (suc start)))
          (combos (suc k) (length rest) (suc start)) a in
      combos-Takes (suc k) (front ++ (x ∷ [])) rest (suc start) P bs (later front x rest start s) n
        others

  -- Every choice of places is of marks.
  combos-IsMarked :
      (k : ℕ) (front rest : List Card) (start : ℕ)
      → Splits front rest start
      → All (IsMarked cards rest) (combos k (length rest) start)
  unfolding combos
  combos-IsMarked zero front rest start s = (([], refl), tt)
  combos-IsMarked (suc k) front [] start s = tt
  combos-IsMarked (suc k) front (x ∷ rest) start s =
      let next = later front x rest start s in
      All-append (IsMarked cards (x ∷ rest)) _ _
        (All-map (IsMarked cards rest) (IsMarked cards (x ∷ rest)) (◌∷◌ start)
          (combos k (length rest) (suc start))
          (λ idx m. (
            true ∷ m.0,
            pick-here cards x start idx (here front x rest start s) ∙ ap (λ t. x ∷ t) m.1,
          ))
          (combos-IsMarked k (front ++ (x ∷ [])) rest (suc start) next))
        (kept_off (combos (suc k) (length rest) (suc start))
          (combos-IsMarked (suc k) (front ++ (x ∷ [])) rest (suc start) next))
    where
      kept_off :
          (cs : List (List ℕ)) → All (IsMarked cards rest) cs → All (IsMarked cards (x ∷ rest)) cs
      kept_off [] h = tt
      kept_off (c ∷ cs) h = ((false ∷ h.0.0, h.0.1), kept_off cs h.1)

  -- Of seven cards, every choice of five is made by a choice of places of `COMBOS_7`.
  pub combos_7-Takes :
      (P : List ℕ → Type 0) (bs : List Bool)
      → length cards ≡ 7
      → length (chosen bs cards) ≡ 5
      → All P combos_7
      → Takes cards P (chosen bs cards)
  unfolding combos_7
  combos_7-Takes P bs h n a = combos-Takes 5 [] cards 0 P bs (refl, refl) n (rw h a)

  -- and the other way round
  pub combos_7-IsMarked : length cards ≡ 7 → All (IsMarked cards cards) combos_7
  unfolding combos_7
  combos_7-IsMarked h = rw h at (combos-IsMarked 5 [] cards 0 (refl, refl))
