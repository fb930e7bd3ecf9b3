-- ===== src/Table/Wager.antt =====
-- packages/core/src/table.ts: betting and posting move chips between stacks and pot only.
use vr_poker.Prelude.{ℕ, ◌≡◌, List, arith}
use vr_poker.Prelude.Int.{ℤ}
use vr_poker.Table.State.{
  Table, Seat, Event, ActionType, fold, check, call, bet, raise, all_in, LegalAction, PlayerAction,
}
use vr_poker.Table.Monad.{modify, log}
use vr_poker.Table.Seats.{update_seat}
use vr_poker.Table.Betting.{
  apply_fold, apply_check, apply_call, apply_bet, apply_raise, apply_all_in, apply_legal,
  apply_action, reset_action_except, reopen_for,
}
use vr_poker.Table.Chips.{
  Keeps, keeps_rules, chips, all_chips, count_chips, Keeps-modify, update_seat-Keeps,
  count-for_occupied, put-Keeps, seat_ref-Keeps, log-Keeps,
}

pub modify-Keeps :
    (g : Table → Table) → ((t : Table) → (g t).seats ≡ t.seats) → Keeps chips (modify g)
modify-Keeps = Keeps-modify all_chips

pub logs-Keeps : (e : Event) → Keeps chips (log e)
logs-Keeps = log-Keeps all_chips

pub seat-Keeps :
    (i : ℕ) (g : Seat → Seat)
    → ((p : Seat) → all_chips (g p) ≡ all_chips p)
    → Keeps chips (update_seat i g)
seat-Keeps = update_seat-Keeps all_chips

reopen_chips : (id : ℕ) (p : Seat) → all_chips (reopen_for id p) ≡ all_chips p
reopen_chips id p = ground arith

pub reset-Keeps : (id : ℕ) → Keeps chips (reset_action_except id)
unfolding reset_action_except modify
reset-Keeps id = record {
  at = λ t. count-for_occupied all_chips (reopen_for id) t.seats (reopen_chips id);
}

pub ruleset wager_rules =
    (keeps_rules, modify-Keeps, logs-Keeps, seat-Keeps, reset-Keeps, put-Keeps, seat_ref-Keeps)

apply_fold-Keeps : (i : ℕ) → Keeps chips (apply_fold i)
unfolding apply_fold
apply_fold-Keeps i = search wager_rules depth 8

apply_check-Keeps : (i : ℕ) → Keeps chips (apply_check i)
unfolding apply_check
apply_check-Keeps i = search wager_rules depth 8

apply_call-Keeps : (i : ℕ) → Keeps chips (apply_call i)
unfolding apply_call
apply_call-Keeps i = search wager_rules depth 8

apply_bet-Keeps : (i : ℕ) (n : ℤ) (l : LegalAction) → Keeps chips (apply_bet i n l)
unfolding apply_bet
apply_bet-Keeps i n l = search wager_rules depth 10

apply_raise-Keeps : (i : ℕ) (n : ℤ) (l : LegalAction) → Keeps chips (apply_raise i n l)
unfolding apply_raise
apply_raise-Keeps i n l = search wager_rules depth 12

apply_all_in-Keeps : (i : ℕ) → Keeps chips (apply_all_in i)
unfolding apply_all_in
apply_all_in-Keeps i = search wager_rules depth 12

apply_legal-Keeps :
    (i : ℕ) (a : ActionType) (n : ℤ) (l : LegalAction) → Keeps chips (apply_legal i a n l)
unfolding apply_legal
apply_legal-Keeps i fold n l = apply_fold-Keeps i
apply_legal-Keeps i check n l = apply_check-Keeps i
apply_legal-Keeps i call n l = apply_call-Keeps i
apply_legal-Keeps i bet n l = apply_bet-Keeps i n l
apply_legal-Keeps i raise n l = apply_raise-Keeps i n l
apply_legal-Keeps i all_in n l = apply_all_in-Keeps i

apply_action-Keeps :
    (i : ℕ) (action : PlayerAction) (legal : List LegalAction)
    → Keeps chips (apply_action i action legal)
unfolding apply_action
apply_action-Keeps i action legal = search (keeps_rules, apply_legal-Keeps)

-- Whatever action a client sends, with whatever whole number for its amount or none, and whether it
-- is accepted or refused: the chips in the stacks and in the pot together stay as many as they were.
pub apply_action_conserves :
    (i : ℕ) (action : PlayerAction) (legal : List LegalAction) (t : Table)
    → chips (apply_action i action legal t).1 ≡ chips t
apply_action_conserves i action legal t = (apply_action-Keeps i action legal).at t
