-- ===== src/Table/Examples.antt =====
-- The theorems on the table at concrete ones.
use vr_poker.Prelude.{
  ℕ, ◌+◌, ◌/◌, ◌≤◌, ◌≡◌, ◌⊎◌, inl, refl, true, false, none, some, List, [], ◌∷◌, arith, All,
}
use vr_poker.Prelude.Sums.{sum_of}
use vr_poker.Prelude.Int.{pos}
use vr_poker.Cards.{Card}
use vr_poker.Pots.{
  Contribution, IsFraction, Rate, build_pots, return_uncalled, split_pot, take_rake,
}
use vr_poker.Pots.Uncalled.{Distinct, ids_of}
use vr_poker.Table.Fuel.{InSource}
use vr_poker.Table.Termination.{rounds_are_enough}
use vr_poker.Table.State.{Table, Seat, bet, check, river, payout}
use vr_poker.Table.Play.{act, start_hand}
use vr_poker.Table.Legal.{legal_actions}
use vr_poker.Table.Betting.{apply_action}
use vr_poker.Table.Seats.{find_seat, occupied}
use vr_poker.Table.Monad.{running}
use vr_poker.Table.Scenes.{result_of}
use vr_poker.Prelude.Sort.{sort_by}
use vr_poker.Evaluator.{evaluate_holdem}
use vr_poker.Table.Settle.{contributions, run_showdown, score, settle_pot, raked_of}
use vr_poker.Table.Chips.{chips}
use vr_poker.Table.Credit.{stacks, Ensures}
use vr_poker.Table.Snapshot.{snapshot}
use vr_poker.Table.Wager.{apply_action_conserves}
use vr_poker.Table.Payout.{settle_pot-paid}
use vr_poker.Table.Accounts.{showdown_conserves}
use vr_poker.Table.Snapshot.{snapshot_hides}

abbrev of : ℕ → ℕ → Card
of r s = record { rank = r; suit = s }

abbrev five_percent : Rate
five_percent = record { positive = true; floor_of = λ n. n / 20 }

abbrev player : ℕ → ℕ → ℕ → List Card → Seat
player id stack commit hole = record {
  player_id = id;
  name = "player";
  stack = stack;
  street_commit = 0;
  hand_commit = commit;
  folded = false;
  is_all_in = false;
  sitting_out = false;
  hole = hole;
  acted_this_round = true;
}

abbrev alice : Seat
alice = player 1 9500 500 (of 12 0 ∷ of 12 1 ∷ [])

abbrev bob : Seat
bob = player 2 9700 300 (of 11 0 ∷ of 11 1 ∷ [])

-- Two players at the river, the first of whom has bet what the second has not called.
abbrev at_river : Table
at_river = record {
  table_id = 0;
  config = record {
    seats = 2;
    small_blind = 50;
    big_blind = 100;
    min_buy_in = 1000;
    max_buy_in = 20_000;
    rake_percent = five_percent;
    rake_cap = 300;
    no_flop_no_rake = true;
    action_timeout_ms = 20_000;
  };
  deal_source = λ t h. record { commitment = "fixed"; left = []; seed = "fixed"; nonce = "fixed" };
  seats = some alice ∷ some bob ∷ [];
  street = river;
  hand_id = 1;
  button_seat = some 0;
  to_act_seat = some 0;
  current_bet = 0;
  last_full_raise_size = 100;
  board = of 0 2 ∷ of 2 3 ∷ of 5 0 ∷ of 7 1 ∷ of 9 2 ∷ [];
  burns = [];
  deal = none;
  events = [];
  winners = none;
  flop_seen = true;
  hand_awaiting_finalize = false;
}

abbrev leader : Contribution
leader = record { player_id = 1; committed = 500; folded = false }

leader_stands :
    Distinct (ids_of (contributions at_river.seats))
    × All (λ x. x.committed ≤ 500) (contributions at_river.seats)
    × (find_seat at_river.seats 1 ≡ some 0)
unfolding contributions find_seat
leader_stands = ((refl, (refl, tt)), (omega arith, (omega arith, tt)), refl)

five_percent-IsFraction : IsFraction five_percent
five_percent-IsFraction n = omega arith

showdown_conserves_example :
    Ensures
      (λ _ u.
        stacks u
          + sum_of
              (λ pot. (raked_of at_river pot.amount).rake)
              (build_pots (return_uncalled (contributions at_river.seats)).1)
        ≡ stacks at_river + sum_of (λ x. x.committed) (contributions at_river.seats))
      (run_showdown at_river)
unfolding contributions
showdown_conserves_example =
    showdown_conserves leader 0 at_river leader_stands.0 (inl refl) refl leader_stands.1
      leader_stands.2 five_percent-IsFraction

apply_action_conserves_example :
    chips
      (apply_action 0
        (record { type = bet; amount = some (pos 400) })
        (legal_actions at_river 1)
        at_river).1
    ≡ chips at_river
apply_action_conserves_example =
    apply_action_conserves 0 (record { type = bet; amount = some (pos 400) })
      (legal_actions at_river 1) at_river

settle_pot-paid_example :
    Ensures
      (λ _ u. stacks u ≡ stacks at_river + (raked_of at_river 600).net)
      (settle_pot (record { amount = 600; eligible = 1 ∷ 2 ∷ [] }) (alice ∷ bob ∷ []) [] at_river)
settle_pot-paid_example =
    settle_pot-paid (record { amount = 600; eligible = 1 ∷ 2 ∷ [] }) alice (bob ∷ []) [] at_river

snapshot_hides_example :
    All (λ p. (p.player_id ≡ some 1) ⊎ (p.hole ≡ none)) (snapshot (some 1) at_river).players
    × ((snapshot (some 1) at_river).reveal ≡ none)
snapshot_hides_example = snapshot_hides (some 1) at_river refl

-- the showdown of that table returns: 200 chips go back, and a pot of 600 pays a rake of 30
showdown_returns : result_of (some at_river) run_showdown ≡ some (payout, 10_270 ∷ 9700 ∷ [])
unfolding running run_showdown occupied return_uncalled build_pots score evaluate_holdem split_pot
    take_rake sort_by find_seat
showdown_returns = refl

rounds_are_enough_example :
    InSource (act 1 (record { type = check; amount = none }) at_river).0
    × InSource (start_hand at_river).0
rounds_are_enough_example = rounds_are_enough 1 (record { type = check; amount = none }) at_river
