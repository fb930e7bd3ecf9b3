-- ===== src/Table/Settle.antt =====
-- packages/core/src/table.ts: `showdown`, `awardUncontested` and `finishHand`.
use vr_poker.Prelude.{
  ℕ, ◌+◌, ◌-◌, Bool, true, false, not, ◌&&◌, Option, none, some, List, [], ◌∷◌, ◌++◌, map, ltb,
  ◌==◌, if◌then◌else◌, max,
}
use vr_poker.Prelude.Sums.{sum_of}
use vr_poker.Cards.{Card}
use vr_poker.Evaluator.{evaluate_holdem, category_name}
use vr_poker.Pots.{
  Contribution, Pot, PotShare, Raked, return_uncalled, build_pots, take_rake, split_pot,
}
use vr_poker.Table.State.{
  Table, Seat, Award, waiting, showdown, payout, returned, wins, raked, wins_uncontested, revealed,
}
use vr_poker.Table.Monad.{
  Action, pure, or_throw, gets, modify, log, skip, ◌>>=◌, ◌>>◌, bad_hand, null_access,
}
use vr_poker.Table.Seats.{Seats, seat_at, occupied, find_seat, seat_ref, update_seat, for_occupied}

abbrev pub contribution : Seat → Contribution
contribution p = record { player_id = p.player_id; committed = p.hand_commit; folded = p.folded }

unfoldable pub contributions : Seats → List Contribution
unfolding occupied
contributions seats = map contribution (occupied seats)

-- `this.occupied().find((p) => p.playerId === id)!`
unfoldable pub seat_of : ℕ → Action ℕ
unfolding find_seat
seat_of id = do seats ← gets (λ t. t.seats); or_throw (find_seat seats id) null_access

abbrev pub gain : ℕ → Seat → Seat
gain amount s = record s { stack = s.stack + amount }

abbrev pub take_back : ℕ → Seat → Seat
take_back amount s = record s { stack = s.stack + amount; hand_commit = s.hand_commit - amount }

-- the loop over the returned bets; `awardUncontested` does not log them
unfoldable pub give_back : Bool → List PotShare → Action (Unit {0})
unfolding seat_of
give_back logged [] = skip
give_back logged (r ∷ rs) =
    let rest = give_back logged rs in
    do
      i ← seat_of r.player_id
      update_seat i (take_back r.amount)
      s ← seat_ref i
      (if logged then log (returned r.amount s.name) else skip)
      rest

abbrev pub apply_rake : Table → Bool
apply_rake t = not (t.config.no_flop_no_rake && not t.flop_seen)

-- the contenders of a pot: the seats of the eligible players that are found
abbrev pub contenders_of : Seats → List ℕ → List Seat
contenders_of seats [] = []
contenders_of seats (id ∷ ids) =
    let rest = contenders_of seats ids in
    elim (find_seat seats id) [
      | none ↦ rest
      | some i ↦ elim (seat_at seats i) [ none ↦ rest | some p ↦ p ∷ rest ]
    ]

abbrev pub Scored : Type 0
Scored = Seat × ℕ

unfoldable pub score : List Card → List Seat → Option (List Scored)
score board [] = some []
score board (p ∷ ps) =
    let rest = score board ps in
    elim (evaluate_holdem p.hole board) [
      | none ↦ none
      | some v ↦ elim rest [ none ↦ none | some ss ↦ some ((p, v) ∷ ss) ]
    ]

-- `Math.max(...scored.map((s) => s.value))`, of values that are not negative
abbrev pub best_value : List Scored → ℕ
best_value [] = 0
best_value (s ∷ ss) = max s.1 (best_value ss)

abbrev pub winner_ids : ℕ → List Scored → List ℕ
winner_ids best [] = []
winner_ids best (s ∷ ss) =
    let rest = winner_ids best ss in if s.1 == best then s.0.player_id ∷ rest else rest

abbrev pub raked_of : Table → ℕ → Raked
raked_of t amount =
    if apply_rake t
    then take_rake amount t.config.rake_percent t.config.rake_cap
    else record { net = amount; rake = 0 }

-- the loop over the shares of a pot
unfoldable pub pay_shares : List PotShare → List Award → Action (List Award)
unfolding seat_of
pay_shares [] awards = pure awards
pay_shares (share ∷ shares) awards = do
  i ← seat_of share.player_id
  update_seat i (gain share.amount)
  w ← seat_ref i
  board ← gets (λ t. t.board)
  v ← or_throw (evaluate_holdem w.hole board) bad_hand
  let name = category_name v
  log (wins w.name share.amount name w.hole)
  pay_shares shares (
      awards
      ++ (record { player_id = w.player_id; amount = share.amount; hand = some (name, w.hole) }
          ∷ []))

-- one pot that has contenders: its winners share what the rake leaves
unfoldable pub settle_pot : Pot → List Seat → List Award → Action (List Award)
unfolding pay_shares
settle_pot pot contenders awards = do
  board ← gets (λ t. t.board)
  scored ← or_throw (score board contenders) bad_hand
  net ← gets (λ t. (raked_of t pot.amount).net)
  pay_shares (split_pot net (winner_ids (best_value scored) scored)) awards

-- the body of the loop over the pots, `rest` being the pots to come: a pot with no contender is
-- passed over
unfoldable pub settle_contested :
    Pot
    → (List Award → ℕ → Action (List Award × ℕ))
    → List Seat
    → List Award
    → ℕ
    → Action (List Award × ℕ)
unfolding settle_pot
settle_contested pot rest [] awards rake = rest awards rake
settle_contested pot rest (p ∷ ps) awards rake = do
  more ← settle_pot pot (p ∷ ps) awards
  taken ← gets (λ t. (raked_of t pot.amount).rake)
  rest more (rake + taken)

unfoldable pub settle_pots : List Pot → List Award → ℕ → Action (List Award × ℕ)
unfolding settle_contested
settle_pots [] awards rake = pure (awards, rake)
settle_pots (pot ∷ pots) awards rake = do
  seats ← gets (λ t. t.seats)
  settle_contested pot (settle_pots pots) (contenders_of seats pot.eligible) awards rake

unfoldable pub run_showdown : Action (Unit {0})
unfolding contributions give_back settle_pots seat_ref update_seat
run_showdown = do
  modify (λ t. record t { street = showdown; to_act_seat = none })
  contribs ← gets (λ t. contributions t.seats)
  give_back true (return_uncalled contribs).0
  (awards, rake) ← settle_pots (build_pots (return_uncalled contribs).1) [] 0
  (if ltb 0 rake then log (raked rake) else skip)
  modify (λ t. record t { winners = some awards; street = payout; hand_awaiting_finalize = true })

-- `awardUncontested`, for the winner at seat `i`
unfoldable pub award_uncontested : ℕ → Action (Unit {0})
unfolding contributions give_back seat_ref update_seat
award_uncontested i = do
  modify (λ t. record t { street = payout; to_act_seat = none })
  contribs ← gets (λ t. contributions t.seats)
  give_back false (return_uncalled contribs).0
  r ← gets (λ t. raked_of t (sum_of (λ c. c.committed) (return_uncalled contribs).1))
  (if ltb 0 r.rake then log (raked r.rake) else skip)
  update_seat i (gain r.net)
  w ← seat_ref i
  modify (λ t. record t {
    winners = some (record { player_id = w.player_id; amount = r.net; hand = none } ∷ []);
  })
  log (wins_uncontested w.name r.net)
  modify (λ t. record t { hand_awaiting_finalize = true })

abbrev pub clear_hand : Seat → Seat
clear_hand s = record s {
  street_commit = 0;
  hand_commit = 0;
  folded = false;
  is_all_in = false;
  hole = [];
  acted_this_round = false;
}

unfoldable pub finish_hand : Action (Unit {0})
finish_hand = do
  deal ← gets (λ t. t.deal)
  elim deal [ none ↦ skip | some d ↦ log (revealed d.seed) ]
  modify (λ t. record t {
    street = waiting;
    to_act_seat = none;
    current_bet = 0;
    last_full_raise_size = t.config.big_blind;
    seats = for_occupied clear_hand t.seats;
  })

-- True if the cleanup ran.
unfoldable pub finalize_hand_if_complete : Action Bool
unfolding finish_hand
finalize_hand_if_complete = do
  awaiting ← gets (λ t. t.hand_awaiting_finalize)
  (if not awaiting
      then pure false
      else modify (λ t. record t { hand_awaiting_finalize = false }) >> finish_hand >> pure true)

unfoldable pub needs_hand_finalize : Table → Bool
needs_hand_finalize t = t.hand_awaiting_finalize
