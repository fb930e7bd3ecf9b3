-- ===== src/Table/Streets.antt =====
-- packages/core/src/table.ts: how a hand goes from street to street.
-- `nextStreetOrShowdown`, `beginStreet` and `skipAllInsAndMaybeClose` call one another. The
-- recursion is on the number of streets that can still come, which four rounds exhaust; the error
-- `out_of_streets` marks fuel that ran out.
use vr_poker.Prelude.{
  ℕ, zero, suc, Bool, true, false, not, ◌&&◌, ◌||◌, Option, none, some, [], ◌∷◌, ◌++◌, ltb, leb,
  ◌==◌, length, keep, find_index,
}
use vr_poker.Cards.{Card}
use vr_poker.Table.State.{Table, Seat, Street, preflop, flop, turn, river, begins}
use vr_poker.Table.Monad.{
  Action, pure, throw, or_throw, gets, modify, log, skip, ◌>>=◌, ◌>>◌, null_access, no_live_seat,
  deck_exhausted, out_of_streets,
}
use vr_poker.Table.Legal.{is_betting}
use vr_poker.Table.Seats.{Seats, seat_at, live, for_occupied, next_live_seat, not_folded}
use vr_poker.Table.Betting.{betting_closed}
use vr_poker.Table.Settle.{run_showdown, award_uncontested}

-- `this.deal!.next()` and `this.deal!.burn()`
unfoldable pub take_card : Action Card
take_card = do
  deal ← gets (λ t. t.deal)
  d ← or_throw deal null_access
  elim d.left [
    | [] ↦ throw deck_exhausted
    | c ∷ cs ↦ modify (λ t. record t { deal = some (record d { left = cs }) }) >> pure c
  ]

unfoldable pub burn_card : Action (Unit {0})
unfolding take_card
burn_card = do c ← take_card; modify (λ t. record t { burns = t.burns ++ (c ∷ []) })

-- The arguments of `board.push` are taken before any of them is pushed.
unfoldable pub deal_flop : Action (Unit {0})
unfolding burn_card
deal_flop = do
  burn_card
  a ← take_card
  b ← take_card
  c ← take_card
  modify (λ t. record t { board = t.board ++ (a ∷ b ∷ c ∷ []) })

-- `dealTurn` and `dealRiver` have the same body.
unfoldable pub deal_one : Action (Unit {0})
unfolding burn_card
deal_one = do burn_card; c ← take_card; modify (λ t. record t { board = t.board ++ (c ∷ []) })

unfoldable pub button_of : Action ℕ
button_of = do button ← gets (λ t. t.button_seat); or_throw button null_access

-- `nextActor`, `nextLiveSeat`
unfoldable pub next_actor : ℕ → Action ℕ
next_actor from = do
  next ← gets (λ t. next_live_seat t.seats t.config.seats from)
  or_throw next no_live_seat

unfoldable pub set_to_act : ℕ → Action (Unit {0})
set_to_act i = modify (λ t. record t { to_act_seat = some i })

abbrev pub is_some : Option ℕ → Bool
is_some none = false
is_some (some i) = true

-- the player to act has not folded and is not all in
abbrev pub can_act : Option Seat → Bool
can_act none = false
can_act (some p) = not p.folded && not p.is_all_in

-- The rounds of the loop that are left; the result says whether the method has returned.
-- `next` is `nextStreetOrShowdown`.
unfoldable pub skip_loop : Action (Unit {0}) → ℕ → Action Bool
unfolding betting_closed next_actor set_to_act
skip_loop next zero = pure false
skip_loop next (suc left) =
    let again = skip_loop next left in
    do
      to_act ← gets (λ t. t.to_act_seat)
      i ← or_throw to_act null_access
      p ← gets (λ t. seat_at t.seats i)
      closed ← gets betting_closed
      elim (can_act p) [
        | true ↦ pure false
        | false ↦ elim closed [
          | true ↦ next >> pure true
          | false ↦ do j ← next_actor i; set_to_act j; again
        ]
      ]

unfoldable pub skip_all_ins : Action (Unit {0}) → Action (Unit {0})
unfolding skip_loop
skip_all_ins next = do
  street ← gets (λ t. t.street)
  to_act ← gets (λ t. t.to_act_seat)
  elim (not (is_betting street) || not (is_some to_act)) [
    | true ↦ skip
    | false ↦ do
      count ← gets (λ t. t.config.seats)
      returned ← skip_loop next count
      closed ← gets betting_closed
      elim (not returned && closed) [ true ↦ next | false ↦ skip ]
  ]

abbrev pub new_street : Seat → Seat
new_street s = record s { street_commit = 0; acted_this_round = false }

unfoldable pub begin_street : Action (Unit {0}) → Street → Action (Unit {0})
unfolding skip_all_ins button_of next_actor set_to_act
begin_street next street = do
  modify (λ t. record t {
    street = street;
    seats = for_occupied new_street t.seats;
    current_bet = 0;
    last_full_raise_size = t.config.big_blind;
  })
  button ← button_of
  first ← next_actor button
  set_to_act first
  board ← gets (λ t. t.board)
  log (begins street board)
  skip_all_ins next

abbrev pub all_in_runout : Table → Bool
all_in_runout t =
    leb (length (keep (λ p. not p.is_all_in) (live t.seats))) 1 && ltb 1 (length (live t.seats))

-- the rest of a hand whose players are all in
unfoldable pub run_out : ℕ → Action (Unit {0})
run_out zero = run_showdown
run_out (suc n) = deal_one >> run_out n

unfoldable pub after_street : Action (Unit {0}) → Street → Bool → Action (Unit {0})
unfolding begin_street deal_flop deal_one run_showdown run_out
after_street next preflop runout = do
  deal_flop
  modify (λ t. record t { flop_seen = true })
  elim runout [ true ↦ run_out 2 | false ↦ begin_street next flop ]
after_street next flop runout = do
  deal_one
  elim runout [ true ↦ run_out 1 | false ↦ begin_street next turn ]
after_street next turn runout = do
  deal_one
  elim runout [ true ↦ run_out 0 | false ↦ begin_street next river ]
after_street next street runout = run_showdown

unfoldable pub next_street : ℕ → Action (Unit {0})
unfolding after_street
next_street zero t = throw out_of_streets t
next_street (suc fuel) t = after_street (next_street fuel) t.street (all_in_runout t) t

-- `nextStreetOrShowdown`: after the flop, the turn and the river comes the showdown.
abbrev pub next_street_or_showdown : Action (Unit {0})
next_street_or_showdown = next_street 4

unfoldable pub first_live : Seats → Option ℕ
first_live seats = find_index not_folded seats

unfoldable pub advance_after_action : Action (Unit {0})
unfolding first_live award_uncontested next_street skip_all_ins
advance_after_action = do
  seats ← gets (λ t. t.seats)
  closed ← gets betting_closed
  elim (length (live seats) == 1) [
    | true ↦ do i ← or_throw (first_live seats) null_access; award_uncontested i
    | false ↦ elim closed [
      | true ↦ next_street_or_showdown
      | false ↦ do
        to_act ← gets (λ t. t.to_act_seat)
        i ← or_throw to_act null_access
        j ← next_actor i
        set_to_act j
        skip_all_ins next_street_or_showdown
    ]
  ]
