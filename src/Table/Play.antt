-- ===== src/Table/Play.antt =====
-- packages/core/src/table.ts: the constructor and the public methods of `Table`.
use Prim.Native.String.{String}
use vr_poker.Prelude.{
  ℕ, ◌+◌, Bool, true, false, not, ◌&&◌, ◌||◌, Option, none, some, List, [], ◌∷◌, ◌++◌, ltb, leb,
  ◌==◌, if◌then◌else◌, length, keep, find_index, set, replicate, min,
}
use vr_poker.Prelude.Int.{ℤ, pos, negsuc, pos_part, ltb_ℤ, leb_ℤ, ◌+ℤ◌}
use vr_poker.Table.State.{
  Table, TableConfig, Seat, HandDeal, Street, waiting, dealing, preflop, buys_in, adds_on,
  cashes_out, dealt, posts, PlayerAction,
}
use vr_poker.Table.Monad.{
  Action, pure, or_throw, gets, modify, throw_if, log, skip, ◌>>=◌, ◌>>◌, null_access,
  hand_in_progress, already_seated, bad_buy_in, no_empty_seat, add_on_too_large,
  add_on_not_positive, need_two_players, not_betting_street, no_action_to_take, not_your_turn,
  out_of_the_action,
}
use vr_poker.Table.Seats.{
  Seats, seat_at, occupied, find_seat, require_seat, seat_ref, update_seat, for_occupied, put,
  advance_button, deal_order, live_seat_indexes,
}
use vr_poker.Table.Legal.{is_betting, legal_actions}
use vr_poker.Table.Betting.{apply_action}
use vr_poker.Table.Settle.{finalize_hand_if_complete}
use vr_poker.Table.Streets.{
  take_card, button_of, next_actor, set_to_act, skip_all_ins, next_street, next_street_or_showdown,
  advance_after_action,
}

-- the constructor; `none` is the thrown error
unfoldable pub new_table : ℕ → (ℕ → ℕ → HandDeal) → TableConfig → Option Table
new_table id source config =
    if ltb config.seats 2 || ltb 9 config.seats
    then none
    else some (record {
      table_id = id;
      config = config;
      deal_source = source;
      seats = replicate config.seats none;
      street = waiting;
      hand_id = 0;
      button_seat = none;
      to_act_seat = none;
      current_bet = 0;
      last_full_raise_size = 0;
      board = [];
      burns = [];
      deal = none;
      events = [];
      winners = none;
      flop_seen = false;
      hand_awaiting_finalize = false;
    })

abbrev pub is_waiting : Street → Bool
is_waiting waiting = true
is_waiting _ = false

-- `assertIdle`: it finishes a hand that awaits it, also where the caller then throws.
unfoldable pub assert_idle : Action (Unit {0})
unfolding finalize_hand_if_complete
assert_idle = do
  finalize_hand_if_complete
  street ← gets (λ t. t.street)
  throw_if (not (is_waiting street)) hand_in_progress

abbrev pub found : Option ℕ → Bool
found none = false
found (some i) = true

abbrev pub is_empty : Option Seat → Bool
is_empty none = true
is_empty (some s) = false

-- `seatIndex ?? this.seats.findIndex((s) => s === null)`; `none` is a negative number
abbrev pub chosen_seat : Seats → Option ℤ → Option ℕ
chosen_seat seats none = find_index is_empty seats
chosen_seat seats (some (pos n)) = some n
chosen_seat seats (some (negsuc n)) = none

-- a seat of the table with nobody on it
abbrev pub free_seat : Table → Option ℕ → Option ℕ
free_seat t none = none
free_seat t (some i) =
    if leb t.config.seats i then none else if is_empty (seat_at t.seats i) then some i else none

abbrev pub new_seat : ℕ → String → ℕ → Seat
new_seat id name chips = record {
  player_id = id;
  name = name;
  stack = chips;
  street_commit = 0;
  hand_commit = 0;
  folded = false;
  is_all_in = false;
  sitting_out = false;
  hole = [];
  acted_this_round = false;
}

-- The seat that is asked for and the buy-in are whole numbers. In the source a fraction or NaN for a
-- seat passes the test, and the player is put beside the array.
unfoldable pub sit : ℕ → String → ℤ → Option ℤ → Action ℕ
unfolding assert_idle find_seat
sit id name buy_in seat_index = do
  assert_idle
  seats ← gets (λ t. t.seats)
  throw_if (found (find_seat seats id)) already_seated
  config ← gets (λ t. t.config)
  throw_if (ltb_ℤ buy_in (pos config.min_buy_in) || ltb_ℤ (pos config.max_buy_in) buy_in) bad_buy_in
  free ← gets (λ t. free_seat t (chosen_seat seats seat_index))
  seat ← or_throw free no_empty_seat
  modify (λ t. record t { seats = set t.seats seat (some (new_seat id name (pos_part buy_in))) })
  log (buys_in name (pos_part buy_in) seat)
  pure seat

unfoldable pub add_on : ℕ → ℤ → Action (Unit {0})
unfolding assert_idle require_seat seat_ref update_seat ◌+ℤ◌
add_on id amount = do
  assert_idle
  seat ← require_seat id
  p ← seat_ref seat
  limit ← gets (λ t. t.config.max_buy_in)
  let next = pos p.stack +ℤ amount
  throw_if (ltb_ℤ (pos limit) next) add_on_too_large
  throw_if (leb_ℤ amount (pos 0)) add_on_not_positive
  update_seat seat (λ s. record s { stack = pos_part next })
  log (adds_on p.name (pos_part amount) (pos_part next))

unfoldable pub cash_out : ℕ → Action ℕ
unfolding assert_idle require_seat seat_ref
cash_out id = do
  assert_idle
  seat ← require_seat id
  p ← seat_ref seat
  modify (λ t. record t { seats = set t.seats seat none })
  log (cashes_out p.name p.stack)
  pure p.stack

abbrev pub can_play : Seat → Bool
can_play s = ltb 0 s.stack && not s.sitting_out

abbrev pub enter_hand : Seat → Seat
enter_hand s = record s {
  street_commit = 0;
  hand_commit = 0;
  folded = s.sitting_out || s.stack == 0;
  is_all_in = false;
  hole = [];
  acted_this_round = false;
}

-- `post`
unfoldable pub post : ℕ → ℕ → Action (Unit {0})
unfolding put seat_ref update_seat
post seat amount = do
  p ← seat_ref seat
  let chips = min amount p.stack
  put seat chips
  update_seat seat (λ s. record s { acted_this_round = false })
  q ← seat_ref seat
  log (posts q.name chips q.is_all_in)

-- The small blind: the button, when two are live.
unfoldable pub small_blind_seat : Action ℕ
unfolding button_of next_actor live_seat_indexes
small_blind_seat = do
  button ← button_of
  seats ← gets (λ t. t.seats)
  elim (length (live_seat_indexes seats) == 2) [ true ↦ pure button | false ↦ next_actor button ]

unfoldable pub post_blinds : Action (Unit {0})
unfolding small_blind_seat post
post_blinds = do
  sb ← small_blind_seat
  config ← gets (λ t. t.config)
  bb ← next_actor sb
  post sb config.small_blind
  post bb config.big_blind

unfoldable pub first_to_act_preflop : Action ℕ
unfolding small_blind_seat
first_to_act_preflop = do
  seats ← gets (λ t. t.seats)
  sb ← small_blind_seat
  elim (length (live_seat_indexes seats) == 2) [
    | true ↦ pure sb
    | false ↦ do big ← next_actor sb; next_actor big
  ]

-- one round of dealing over the seats of `order`
unfoldable pub deal_round : List ℕ → Action (Unit {0})
unfolding take_card seat_ref update_seat
deal_round [] = skip
deal_round (i ∷ is) =
    let rest = deal_round is in
    do
      p ← seat_ref i
      elim p.folded [
        | true ↦ rest
        | false ↦ do
          c ← take_card
          update_seat i (λ s. record s { hole = s.hole ++ (c ∷ []) })
          rest
      ]

unfoldable pub start_hand : Action (Unit {0})
unfolding assert_idle occupied advance_button post_blinds deal_order deal_round first_to_act_preflop
    skip_all_ins next_street button_of set_to_act
start_hand = do
  assert_idle
  before ← gets (λ t. t.seats)
  throw_if (ltb (length (keep can_play (occupied before))) 2) need_two_players
  modify (λ t. record t {
    hand_id = t.hand_id + 1;
    street = dealing;
    board = [];
    burns = [];
    winners = none;
    flop_seen = false;
    events = [];
    seats = for_occupied enter_hand t.seats;
  })
  modify advance_button
  modify (λ t. record t { deal = some (t.deal_source t.table_id t.hand_id) })
  post_blinds
  button ← button_of
  t ← gets (λ t. t)
  let order = deal_order t.seats t.config.seats button
  deal_round order
  deal_round order
  modify (λ t. record t {
    current_bet = t.config.big_blind;
    last_full_raise_size = t.config.big_blind;
    street = preflop;
  })
  first ← first_to_act_preflop
  set_to_act first
  u ← gets (λ u. u)
  deal ← or_throw u.deal null_access
  log (dealt u.hand_id u.button_seat deal.commitment)
  skip_all_ins next_street_or_showdown

unfoldable pub act : ℕ → PlayerAction → Action (Unit {0})
unfolding require_seat seat_ref update_seat legal_actions apply_action advance_after_action
act id action = do
  street ← gets (λ t. t.street)
  throw_if (not (is_betting street)) not_betting_street
  to_act ← gets (λ t. t.to_act_seat)
  turn_seat ← or_throw to_act no_action_to_take
  seat ← require_seat id
  throw_if (not (seat == turn_seat)) not_your_turn
  p ← seat_ref seat
  throw_if (p.folded || p.is_all_in) out_of_the_action
  legal ← gets (λ t. legal_actions t id)
  apply_action seat action legal
  update_seat seat (λ s. record s { acted_this_round = true })
  advance_after_action
