-- ===== src/Table/Termination.antt =====
-- packages/core/src/table.ts: four rounds are enough for the methods that go from street to street.
use vr_poker.Prelude.{ℕ, refl, Option, none, some, List, [], ◌∷◌, length, ◌==◌}
use vr_poker.Table.State.{
  Table, PlayerAction, LegalAction, ActionType, fold, check, call, bet, raise, all_in,
}
use vr_poker.Table.Monad.{Action, null_access}
use vr_poker.Prelude.Int.{ℤ}
use vr_poker.Table.Seats.{live, require_seat, put}
use vr_poker.Table.Betting.{
  apply_fold, apply_check, apply_call, apply_bet, apply_raise, apply_all_in, apply_legal,
  apply_action, reset_action_except,
}
use vr_poker.Table.Settle.{finish_hand, finalize_hand_if_complete}
use vr_poker.Table.Streets.{first_live, advance_after_action}
use vr_poker.Table.Fuel.{
  InSource, Ends, Ends-bind, Ends-then, Ends-gets, Ends-modify, Ends-or_throw, Ends-skip, Ends-log,
  ends_rules, award_uncontested-Ends, seat_ref-Ends,
}
use vr_poker.Table.Rounds.{next_actor-Ends, set_to_act-Ends, button_of-Ends}
use vr_poker.Table.Closing.{next_street-Ends, skip_all_ins-Ends, Ends-choice}
use vr_poker.Table.Fuel.{Ends-pure, Ends-update, take_card-Ends}
use vr_poker.Table.Seats.{live_seat_indexes}
use vr_poker.Table.Play.{
  assert_idle, post, small_blind_seat, post_blinds, first_to_act_preflop, deal_round, start_hand,
  act,
}

advance_after_action-Ends : Ends advance_after_action
unfolding advance_after_action
advance_after_action-Ends = Ends-bind (Ends-gets _) (λ seats. Ends-bind (Ends-gets _) (λ closed.
    Ends-choice (length (live seats) == 1)
      (Ends-bind (Ends-or_throw (first_live seats) null_access refl) award_uncontested-Ends)
      (Ends-choice closed next_street-Ends (
        Ends-bind (Ends-gets _) (λ to_act. Ends-bind (Ends-or_throw to_act null_access refl) (λ i.
          Ends-bind (next_actor-Ends i) (λ j. Ends-then (set_to_act-Ends j) skip_all_ins-Ends)))))))

-- The actions of a player.
put-Ends : (i n : ℕ) → Ends (put i n)
unfolding put
put-Ends i n = search ends_rules

reset-Ends : (id : ℕ) → Ends (reset_action_except id)
unfolding reset_action_except
reset-Ends id = search ends_rules

ruleset action_rules = (ends_rules, put-Ends, reset-Ends)

apply_legal-Ends : (i : ℕ) (a : ActionType) (n : ℤ) (l : LegalAction) → Ends (apply_legal i a n l)
unfolding apply_legal apply_fold apply_check apply_call apply_bet apply_raise apply_all_in
apply_legal-Ends i fold n l = search action_rules depth 8
apply_legal-Ends i check n l = search action_rules depth 8
apply_legal-Ends i call n l = search action_rules depth 10
apply_legal-Ends i bet n l = search action_rules depth 12
apply_legal-Ends i raise n l = search action_rules depth 14
apply_legal-Ends i all_in n l = search action_rules depth 14

apply_action-Ends :
    (i : ℕ) (action : PlayerAction) (legal : List LegalAction) → Ends (apply_action i action legal)
unfolding apply_action
apply_action-Ends i action legal = search (ends_rules, apply_legal-Ends)

require_seat-Ends : (id : ℕ) → Ends (require_seat id)
unfolding require_seat
require_seat-Ends id = search ends_rules

act-Ends : (id : ℕ) (action : PlayerAction) → Ends (act id action)
unfolding act
act-Ends id action =
    search (ends_rules, apply_action-Ends, require_seat-Ends, advance_after_action-Ends) depth 20

-- The start of a hand.
post-Ends : (i n : ℕ) → Ends (post i n)
unfolding post
post-Ends i n = search action_rules depth 12

small_blind_seat-Ends : Ends small_blind_seat
unfolding small_blind_seat
small_blind_seat-Ends = Ends-bind button_of-Ends (λ button. Ends-bind (Ends-gets _) (λ seats.
    Ends-choice (length (live_seat_indexes seats) == 2) (Ends-pure button)
      (next_actor-Ends button)))

post_blinds-Ends : Ends post_blinds
unfolding post_blinds
post_blinds-Ends = search (ends_rules, small_blind_seat-Ends, next_actor-Ends, post-Ends) depth 10

first_to_act-Ends : Ends first_to_act_preflop
unfolding first_to_act_preflop
first_to_act-Ends = Ends-bind (Ends-gets _) (λ seats. Ends-bind small_blind_seat-Ends (λ sb.
    Ends-choice (length (live_seat_indexes seats) == 2) (Ends-pure sb)
      (Ends-bind (next_actor-Ends sb) next_actor-Ends)))

deal_round-Ends : (order : List ℕ) → Ends (deal_round order)
unfolding deal_round
deal_round-Ends [] = Ends-skip
deal_round-Ends (i ∷ is) =
    let rest = deal_round-Ends is in
    Ends-bind (seat_ref-Ends i) (λ p.
      Ends-choice p.folded rest (Ends-bind take_card-Ends (λ c. Ends-then (Ends-update i _) rest)))

Ends-option :
    {A B : Type 0} (o : Option A) {m : Action B} {k : A → Action B}
    → Ends m
    → ((a : A) → Ends (k a))
    → Ends (elim o [ none ↦ m | some a ↦ k a ])
Ends-option none h j = h
Ends-option (some a) h j = j a

finish_hand-Ends : Ends finish_hand
unfolding finish_hand
finish_hand-Ends =
    Ends-bind (Ends-gets _)
      (λ deal. Ends-then (Ends-option deal Ends-skip (λ d. Ends-log _)) (Ends-modify _))

finalize-Ends : Ends finalize_hand_if_complete
unfolding finalize_hand_if_complete
finalize-Ends = search (ends_rules, finish_hand-Ends) depth 9

assert_idle-Ends : Ends assert_idle
unfolding assert_idle
assert_idle-Ends = search (ends_rules, finalize-Ends)

start_hand-Ends : Ends start_hand
unfolding start_hand
start_hand-Ends =
    search
      (
        ends_rules, assert_idle-Ends, post_blinds-Ends, button_of-Ends, deal_round-Ends,
        first_to_act-Ends, skip_all_ins-Ends,
      )
      depth 30

-- Whatever the table and the call, playing an action and starting a hand return, or throw an error
-- of the source: the four rounds from street to street that the model allows are never too few.
pub rounds_are_enough :
    (id : ℕ) (action : PlayerAction) (t : Table)
    → InSource (act id action t).0 × InSource (start_hand t).0
rounds_are_enough id action t = ((act-Ends id action).at t, start_hand-Ends.at t)
