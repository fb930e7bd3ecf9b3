-- ===== src/Cards/Texts.antt =====
-- packages/core/src/cards.ts: what is printed parses back, and numbers name the cards.
use mathlib.Core.List.{reverse, reverse_aux, reverse-append, reverse-reverse}
use vr_poker.Prelude.Below.{holds_below, holds_below-at, every_sound}
use vr_poker.Prelude.{
  ℕ, ◌+◌, ◌*◌, ◌/◌, ◌%◌, ◌≤◌, ◌≡◌, refl, true, false, none, some, List, [], ◌∷◌, ◌++◌, map, arith,
  All, ◌==◌, get_elem?, ◌∙◌, length, every, not, ap, ◌&&◌, Bool,
}
use vr_poker.Cards.{
  Card, IsCard, card, is_space, parse_card, words_from, parse_all, parse_cards, format_card,
  format_cards, card_id, card_from_id, standard_deck, trim, trim_start, same_card,
}

-- A card from its number is a card with that number, and a card is the one with its number.
pub card_from_id_lem :
    (id : ℕ) → id ≤ 51 → (c : Card) × (card_from_id id ≡ some c) × IsCard c × (card_id c ≡ id)
unfolding card_from_id card card_id
card_from_id_lem id h =
    (record { rank = id / 4; suit = id % 4 }, ground arith, ground arith, ground arith)

pub card_from_id-card_id : (c : Card) → IsCard c → card_from_id (card_id c) ≡ some c
unfolding card_from_id card card_id
card_from_id-card_id c h = ground arith

-- the card with number `i` stands at place `i` of the deck
deck_test : ℕ → Bool
deck_test i = elim (get_elem? standard_deck i) [
  | none ↦ false
  | some c ↦ c.rank == i / 4 && c.suit == i % 4
]

deck_table : holds_below deck_test 52 ≡ true
unfolding holds_below deck_test standard_deck
deck_table = refl

-- Every card stands in the deck at the place that is its number, and the deck has no other place.
pub standard_deck-at :
    (c : Card)
    → IsCard c
    → (get_elem? standard_deck (card_id c) ≡ some c) × (length standard_deck ≡ 52)
unfolding deck_test card_id
standard_deck-at c h =
    let found : deck_test (c.rank * 4 + c.suit) ≡ true =
      holds_below-at deck_test (c.rank * 4 + c.suit) 52 deck_table (omega arith) in
    (ground arith, unfold standard_deck in refl)

-- A test that every card of the deck passes holds of every card.
pub every_card :
    (p : Card → Bool) → every p standard_deck ≡ true → (c : Card) → IsCard c → p c ≡ true
every_card p t c h = every_sound p standard_deck (card_id c) t (standard_deck-at c h).0

reads_back : Card → Bool
reads_back c = elim (parse_card (format_card c)) [ none ↦ false | some d ↦ same_card d c ]

reads_back_table : every reads_back standard_deck ≡ true
unfolding reads_back standard_deck parse_card format_card same_card card
reads_back_table = refl

parse_card-format_card : (c : Card) → IsCard c → parse_card (format_card c) ≡ some c
unfolding reads_back same_card
parse_card-format_card c h =
    let t : reads_back c ≡ true = every_card reads_back reads_back_table c h in ground arith

-- two characters, neither a space
two_solid : List ℕ → Bool
two_solid (a ∷ b ∷ []) = not (is_space a) && not (is_space b)
two_solid _ = false

solid_table : every (λ c. two_solid (format_card c)) standard_deck ≡ true
unfolding two_solid standard_deck format_card
solid_table = refl

abbrev Solid : List ℕ → Type 0
Solid t = (a : ℕ) × (b : ℕ) × (t ≡ a ∷ b ∷ []) × (is_space a ≡ false) × (is_space b ≡ false)

two_solid→Solid : (t : List ℕ) → two_solid t ≡ true → Solid t
unfolding two_solid
two_solid→Solid [] h = cc
two_solid→Solid (a ∷ []) h = cc
two_solid→Solid (a ∷ b ∷ []) h = (a, b, refl, ground arith, ground arith)
two_solid→Solid (a ∷ b ∷ c ∷ t) h = cc

format_card-Solid : (c : Card) → IsCard c → Solid (format_card c)
format_card-Solid c h =
    two_solid→Solid (format_card c) (every_card (λ c. two_solid (format_card c)) solid_table c h)

module _ (a b : ℕ) (na : is_space a ≡ false) (nb : is_space b ≡ false) where
  words_last : words_from [] (a ∷ b ∷ []) ≡ (a ∷ b ∷ []) ∷ []
  unfolding words_from
  words_last = ground arith

  words_next :
      (rest : List ℕ) → words_from [] (a ∷ b ∷ b' ' ∷ rest) ≡ (a ∷ b ∷ []) ∷ words_from [] rest
  unfolding words_from
  words_next rest = ground arith

-- The words of a printed list are its printed cards.
words-format_cards :
    (c : Card) (cs : List Card)
    → All IsCard (c ∷ cs)
    → words_from [] (format_cards (c ∷ cs)) ≡ map format_card (c ∷ cs)
unfolding format_cards
words-format_cards c [] h =
    let (a, b, e, na, nb) = format_card-Solid c h.0 in rw e (words_last a b na nb)
words-format_cards c (d ∷ cs) h =
    let (a, b, e, na, nb) = format_card-Solid c h.0 in
    rw e (
      words_next a b na nb (format_cards (d ∷ cs))
      ∙ ap (◌∷◌ (a ∷ b ∷ [])) (words-format_cards d cs h.1))

-- A text that begins and ends with no space.
Trimmed : List ℕ → Type 0
Trimmed t =
    (a : ℕ) × (u : List ℕ) × (v : List ℕ) × (b : ℕ) × (t ≡ a ∷ u)
    × (t ≡ v ++ (b ∷ []))
    × (is_space a ≡ false)
    × (is_space b ≡ false)

trim_start_solid : (a : ℕ) (u : List ℕ) → is_space a ≡ false → trim_start (a ∷ u) ≡ a ∷ u
trim_start_solid a u h = rw h refl

trim-Trimmed : (t : List ℕ) → Trimmed t → trim t ≡ t
unfolding Trimmed
trim-Trimmed t (a, u, v, b, e, k, na, nb) =
    let front : trim_start t ≡ t = rw e (trim_start_solid a u na) in
    let turned : reverse t ≡ b ∷ reverse v =
      ap reverse k ∙ reverse-append v (b ∷ []) ∙ unfold reverse reverse_aux in refl in
    let back : trim_start (reverse t) ≡ reverse t = rw turned (trim_start_solid b (reverse v) nb) in
    rw (front, back) (reverse-reverse t)

format_cards-Trimmed :
    (c : Card) (cs : List Card) → All IsCard (c ∷ cs) → Trimmed (format_cards (c ∷ cs))
unfolding Trimmed format_cards
format_cards-Trimmed c [] h =
    let (a, b, e, na, nb) = format_card-Solid c h.0 in (a, b ∷ [], a ∷ [], b, e, e, na, nb)
format_cards-Trimmed c (d ∷ cs) h =
    let (a, b, e, na, nb) = format_card-Solid c h.0 in
    let (a', u, v, z, e', k, na', nz) = format_cards-Trimmed d cs h.1 in
    (a, b ∷ b' ' ∷ format_cards (d ∷ cs), a ∷ b ∷ b' ' ∷ v, z, rw e refl, rw (e, k) refl, na, nz)

parse_all-format : (cs : List Card) → All IsCard cs → parse_all (map format_card cs) ≡ some cs
unfolding parse_all format_card
parse_all-format [] h = refl
parse_all-format (c ∷ cs) h = rw (parse_card-format_card c h.0, parse_all-format cs h.1) refl

-- Any list of cards that is printed parses back to the same list.
pub parse_cards-format_cards :
    (cs : List Card) → All IsCard cs → parse_cards (format_cards cs) ≡ some cs
unfolding parse_cards
parse_cards-format_cards [] h = unfold words_from format_cards parse_all in refl
parse_cards-format_cards (c ∷ cs) h =
    rw
      (
        trim-Trimmed (format_cards (c ∷ cs)) (format_cards-Trimmed c cs h),
        words-format_cards c cs h,
      )
      (parse_all-format (c ∷ cs) h)
