-- ===== src/Table/Scenes.antt =====
-- Hands that are played on small tables, as the tests of packages/core play them.

use vr_poker.Prelude.{ℕ, true, false, Option, none, some, List, [], ◌∷◌, map, ◌≡◌, refl}
use vr_poker.Prelude.Sort.{sort_by}
use vr_poker.Prelude.Int.{pos}
use vr_poker.Cards.{standard_deck}
use vr_poker.Pots.{Rate, return_uncalled, build_pots, split_pot, take_rake}
use vr_poker.Evaluator.{evaluate_holdem}
use vr_poker.Table.State.{
  Table, TableConfig, HandDeal, ActionType, PlayerAction, fold, check, call, raise, Street, payout,
}
use vr_poker.Table.Monad.{Action, ok, err, ◌>>◌, skip, running}
use vr_poker.Table.Seats.{occupied, for_occupied, live_seat_indexes, next_live_seat}
use vr_poker.Table.Settle.{score}
use vr_poker.Table.Play.{new_table, sit, start_hand, act}

abbrev pub no_rake : Rate
no_rake = record { positive = false; floor_of = λ n. 0 }

abbrev pub source : ℕ → ℕ → HandDeal
source t h = record { commitment = "fixed"; left = standard_deck; seed = "fixed"; nonce = "fixed" }

abbrev pub config_of : ℕ → TableConfig
config_of n = record {
  seats = n;
  small_blind = 50;
  big_blind = 100;
  min_buy_in = 1000;
  max_buy_in = 20_000;
  rake_percent = no_rake;
  rake_cap = 0;
  no_flop_no_rake = true;
  action_timeout_ms = 20_000;
}

abbrev pub plays : ActionType → PlayerAction
plays a = record { type = a; amount = none }

abbrev pub plays_for : ActionType → ℕ → PlayerAction
plays_for a n = record { type = a; amount = some (pos n) }

-- A table of two players, the first of whom has the button.
abbrev pub heads_up : Action (Unit {0})
heads_up = do
  sit 1 "Alice" (pos 10_000) (some (pos 0))
  sit 2 "Bob" (pos 10_000) (some (pos 1))
  skip

abbrev pub result_of : Option Table → Action (Unit {0}) → Option (Street × List ℕ)
result_of none m = none
result_of (some t) m = elim (m t).0 [
  | ok u ↦ some ((m t).1.street, map (λ p. p.stack) (occupied (m t).1.seats))
  | err e ↦ none
]

abbrev start : ℕ → Option Table
start n = new_table 0 source (config_of n)

fold_awards_blinds :
    result_of (start 2) (heads_up >> start_hand >> act 1 (plays fold))
    ≡ some (payout, 9950 ∷ 10_050 ∷ [])
unfolding running new_table sit start_hand act occupied sort_by for_occupied live_seat_indexes
    next_live_seat standard_deck return_uncalled
fold_awards_blinds = refl

checked_down :
    result_of (start 2) (
      heads_up
      >> start_hand
      >> act 1 (plays_for raise 300)
      >> act 2 (plays call)
      >> act 2 (plays check)
      >> act 1 (plays check)
      >> act 2 (plays check)
      >> act 1 (plays check)
      >> act 2 (plays check)
      >> act 1 (plays check))
    ≡ some (payout, 10_000 ∷ 10_000 ∷ [])
unfolding running new_table sit start_hand act occupied sort_by for_occupied live_seat_indexes
    next_live_seat standard_deck return_uncalled build_pots score evaluate_holdem split_pot
    take_rake
checked_down = refl
