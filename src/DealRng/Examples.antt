-- ===== src/DealRng/Examples.antt =====
-- Tests of services/deal-rng, and the theorems for a digest that does not depend on its input.
use native.Mathlib.Nat.{mod-lt}
use vr_poker.Prelude.{◌^◌, ◌≡◌, refl, Option, none, some, List, [], ◌∷◌, arith, replicate}
use vr_poker.Prelude.Maps.{lookup_in}
use vr_poker.Deal.{Buffer}
use vr_poker.Deal.Shuffle.{Plentiful}
use vr_poker.DealRng.{DealRng, LiveHand, ok, next, burn}
use vr_poker.DealRng.Service.{Extra, open_hand, draw, close, result_of}
use vr_poker.DealRng.Sound.{IsSound}
use vr_poker.DealRng.Closed.{
  Reaches, opens, draws, stays, goes_on, AnswersClosed, reached-IsSound, closed_for_good,
}

abbrev digest : List Buffer → Buffer
digest parts = replicate 32 7

abbrev same : Buffer → Buffer
same b = b

digest-Plentiful : Plentiful digest 1 (1 ∷ []) (2 ∷ []) 52
digest-Plentiful c n p le = (0, omega arith, omega (arith, mod-lt (2 ^ 32) p, le))

abbrev empty : DealRng
empty = record { live = []; history = [] }

empty-IsSound : IsSound digest 1 same same empty
empty-IsSound = record { distinct = tt; live_ok = λ id h e. absurd cc; events_ok = tt }

-- a hand that is opened, and two cards of it
abbrev opened : DealRng
opened = (open_hand digest 1 same 9 100 (1 ∷ []) (2 ∷ []) (some 5) none empty).1

abbrev drawn : DealRng
drawn = (draw 5 burn (draw 5 next opened).1).1

drawn_reached : Reaches digest 1 same same empty drawn
drawn_reached =
    goes_on
      (goes_on (goes_on stays (opens 9 100 (1 ∷ []) (2 ∷ []) (some 5) none empty))
        (draws 5 next opened))
      (draws 5 burn (draw 5 next opened).1)

reached-IsSound_example : IsSound digest 1 same same drawn
reached-IsSound_example = reached-IsSound digest 1 same same drawn_reached empty-IsSound

abbrev said : Extra
said = record { hole_cards = none; board_cards = none }

abbrev no_hand : LiveHand
no_hand = record {
  hand_id = 0;
  table_id = none;
  opened_at = 0;
  commitment = [];
  seed = [];
  nonce = [];
  deck = [];
  cursor = 0;
  draws = [];
}

abbrev or_no_hand : Option LiveHand → LiveHand
or_no_hand none = no_hand
or_no_hand (some h) = h

abbrev hand : LiveHand
hand = or_no_hand (lookup_in 5 drawn.live)

hand_live : lookup_in 5 drawn.live ≡ some hand
unfolding open_hand draw
hand_live = refl

hand_seeds : (hand.seed ≡ 1 ∷ []) × (hand.nonce ≡ 2 ∷ []) × (hand.cursor ≡ 2)
unfolding open_hand draw
hand_seeds = (refl, refl, refl)

-- the closed hand, and then a try to draw from it
abbrev later : DealRng
later = (draw 5 next (close digest 1 same same 200 5 said drawn).1).1

closed_for_good_example :
    ((close digest 1 same same 200 5 said drawn).0 ≡ ok (result_of same 200 said hand))
    × AnswersClosed digest 1 same same 5 (result_of same 200 said hand) later
closed_for_good_example =
    closed_for_good digest 1 same same 200 5 said hand drawn later
      (reached-IsSound digest 1 same same drawn_reached empty-IsSound) hand_live refl refl
      (goes_on stays (draws 5 next (close digest 1 same same 200 5 said drawn).1))
