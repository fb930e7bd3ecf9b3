-- ===== src/Cards/Examples.antt =====
-- The theorems on the cards at concrete ones.
use vr_poker.Prelude.{◌≡◌, some, [], ◌∷◌, arith}
use vr_poker.Cards.{Card, IsCard, parse_cards, format_cards}
use vr_poker.Cards.Texts.{parse_cards-format_cards}

abbrev ace_of_spades : Card
ace_of_spades = record { rank = 12; suit = 3 }

ace-IsCard : IsCard ace_of_spades
ace-IsCard = record { rank_le = omega arith; suit_le = omega arith }

abbrev deuce_of_clubs : Card
deuce_of_clubs = record { rank = 0; suit = 0 }

deuce-IsCard : IsCard deuce_of_clubs
deuce-IsCard = record { rank_le = omega arith; suit_le = omega arith }

parse_cards-format_cards_example :
    parse_cards (format_cards (ace_of_spades ∷ deuce_of_clubs ∷ []))
    ≡ some (ace_of_spades ∷ deuce_of_clubs ∷ [])
parse_cards-format_cards_example =
    parse_cards-format_cards (ace_of_spades ∷ deuce_of_clubs ∷ []) (ace-IsCard, (deuce-IsCard, tt))
