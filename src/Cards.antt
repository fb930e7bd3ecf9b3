-- ===== src/Cards.antt =====
-- packages/core/src/cards.ts: ranks 0 to 12 (2 to A), suits 0 to 3, and their two-character texts.
-- A text is the list of its character codes (ASCII, as every text that parses is); `none` is a
-- thrown error.
pub mod Texts
mod Examples
use mathlib.Core.List.{reverse}
use vr_poker.Prelude.{
  ℕ, zero, suc, ◌+◌, ◌-◌, ◌*◌, ◌/◌, ◌%◌, Bool, true, false, ◌&&◌, ◌||◌, Option, none, some, List,
  [], ◌∷◌, ◌++◌, map, ltb, leb, ◌==◌, if◌then◌else◌, find_index, get_elem?, ◌≤◌,
}

pub record Card : Type 0 where
  pub rank : ℕ
  pub suit : ℕ

abbrev rank_chars : List ℕ
rank_chars =
    b'2' ∷ b'3' ∷ b'4' ∷ b'5' ∷ b'6' ∷ b'7' ∷ b'8' ∷ b'9' ∷ b'T' ∷ b'J' ∷ b'Q' ∷ b'K' ∷ b'A' ∷ []

abbrev suit_chars : List ℕ
suit_chars = b'c' ∷ b'd' ∷ b'h' ∷ b's' ∷ []

-- The constructor function; ranks and suits are not negative here.
unfoldable pub card : ℕ → ℕ → Option Card
card rank suit =
    if ltb 12 rank || ltb 3 suit then none else some (record { rank = rank; suit = suit })

-- white space, of the characters up to 127
abbrev pub is_space : ℕ → Bool
is_space c = c == b' ' || (leb 9 c && leb c 13)

abbrev pub to_upper : ℕ → ℕ
to_upper c = if leb b'a' c && leb c b'z' then c - 32 else c

abbrev pub to_lower : ℕ → ℕ
to_lower c = if leb b'A' c && leb c b'Z' then c + 32 else c

abbrev trim_start : List ℕ → List ℕ
trim_start [] = []
trim_start (c ∷ cs) = let rest = trim_start cs in if is_space c then rest else c ∷ cs

abbrev trim : List ℕ → List ℕ
trim text = reverse (trim_start (reverse (trim_start text)))

abbrev index_of : ℕ → List ℕ → Option ℕ
index_of c = find_index (λ x. x == c)

parse_trimmed : List ℕ → Option Card
unfolding card
parse_trimmed (r ∷ s ∷ []) = elim (index_of (to_upper r) rank_chars) [
  | none ↦ none
  | some rank ↦ elim (index_of (to_lower s) suit_chars) [ none ↦ none | some suit ↦ card rank suit ]
]
parse_trimmed _ = none

unfoldable pub parse_card : List ℕ → Option Card
unfolding parse_trimmed
parse_card text = parse_trimmed (trim text)

-- `split(/\s+/)` then `filter(Boolean)`: the words that are not empty, `word` being the one so
-- far in reverse.
abbrev close_word : List ℕ → List (List ℕ) → List (List ℕ)
close_word [] words = words
close_word (c ∷ cs) words = reverse (c ∷ cs) ∷ words

unfoldable pub words_from : List ℕ → List ℕ → List (List ℕ)
words_from word [] = close_word word []
words_from word (c ∷ cs) = elim (is_space c) [
  | true ↦ close_word word (words_from [] cs)
  | false ↦ words_from (c ∷ word) cs
]

-- `map(parseCard)`, where one bad word throws
unfoldable pub parse_all : List (List ℕ) → Option (List Card)
unfolding parse_card
parse_all [] = some []
parse_all (w ∷ ws) =
    let rest = parse_all ws in
    elim (parse_card w) [
      | none ↦ none
      | some c ↦ elim rest [ none ↦ none | some cs ↦ some (c ∷ cs) ]
    ]

unfoldable pub parse_cards : List ℕ → Option (List Card)
unfolding words_from parse_all
parse_cards text = parse_all (words_from [] (trim text))

-- how a template literal prints an element that may be out of range
abbrev char_text : Option ℕ → List ℕ
char_text (some c) = c ∷ []
char_text none = b'u' ∷ b'n' ∷ b'd' ∷ b'e' ∷ b'f' ∷ b'i' ∷ b'n' ∷ b'e' ∷ b'd' ∷ []

unfoldable pub format_card : Card → List ℕ
format_card c = char_text (get_elem? rank_chars c.rank) ++ char_text (get_elem? suit_chars c.suit)

-- `map(formatCard).join(" ")`
unfoldable pub format_cards : List Card → List ℕ
unfolding format_card
format_cards [] = []
format_cards (c ∷ []) = format_card c
format_cards (c ∷ d ∷ cs) = format_card c ++ (b' ' ∷ format_cards (d ∷ cs))

unfoldable pub card_id : Card → ℕ
card_id c = c.rank * 4 + c.suit

unfoldable pub card_from_id : ℕ → Option Card
unfolding card
card_from_id id = if ltb 51 id then none else card (id / 4) (id % 4)

-- the two loops of `standardDeck`
deck_suits : ℕ → ℕ → ℕ → List Card
deck_suits rank suit zero = []
deck_suits rank suit (suc left) =
    record { rank = rank; suit = suit } ∷ deck_suits rank (suc suit) left

deck_ranks : ℕ → ℕ → List Card
deck_ranks rank zero = []
deck_ranks rank (suc left) = deck_suits rank 0 4 ++ deck_ranks (suc rank) left

unfoldable pub standard_deck : List Card
unfolding deck_suits deck_ranks
standard_deck = deck_ranks 0 13

unfoldable pub same_card : Card → Card → Bool
same_card a b = a.rank == b.rank && a.suit == b.suit

-- A card that `card` makes.
pub record IsCard (c : Card) : Type 0 where
  pub rank_le : c.rank ≤ 12
  pub suit_le : c.suit ≤ 3
