-- ===== src/Table/Legal.antt =====
-- packages/core/src/table.ts: `legalActions`.
-- A difference of chips that the source tests for `<= 0` is a truncated one here.
use vr_poker.Prelude.{
  ℕ, ◌+◌, ◌-◌, Bool, true, false, not, ◌&&◌, Option, none, some, List, [], ◌∷◌, ◌++◌, ltb, leb,
  ◌==◌, if◌then◌else◌, min,
}
use vr_poker.Table.State.{
  Table, Seat, Street, preflop, flop, turn, river, ActionType, fold, check, call, bet, raise,
  all_in, LegalAction,
}
use vr_poker.Table.Seats.{seat_at, find_seat}

-- `BETTING.includes(street)`
abbrev pub is_betting : Street → Bool
is_betting preflop = true
is_betting flop = true
is_betting turn = true
is_betting river = true
is_betting _ = false

abbrev pub plain : ActionType → LegalAction
plain a = record { type = a; min = none; max = none }

abbrev pub ranged : ActionType → ℕ → ℕ → LegalAction
ranged a lo hi = record { type = a; min = some lo; max = some hi }

-- no bet to call: check, and bet or go all in with chips
abbrev pub unopened_actions : ℕ → ℕ → List LegalAction
unopened_actions stack big_blind =
    plain check
    ∷ (if ltb 0 stack
        then ranged bet (min stack big_blind) stack ∷ ranged all_in stack stack ∷ []
        else [])

-- a bet of `to_call` more to call
abbrev pub facing_actions : ℕ → ℕ → ℕ → ℕ → ℕ → List LegalAction
facing_actions stack commit current_bet to_call min_raise_to =
    (if ltb to_call stack then ranged call to_call to_call ∷ [] else [])
    ++ ((if ltb 0 stack then ranged all_in stack stack ∷ [] else [])
        ++ (if ltb current_bet (stack + commit) && ltb to_call stack
            then if leb min_raise_to (stack + commit)
              then ranged raise min_raise_to (stack + commit) ∷ []
              else []
            else []))

unfoldable pub legal_for : Table → Seat → List LegalAction
legal_for t p =
    let to_call = t.current_bet - p.street_commit in
    plain fold
    ∷ (if to_call == 0
        then unopened_actions p.stack t.config.big_blind
        else facing_actions p.stack p.street_commit t.current_bet to_call
            (t.current_bet + t.last_full_raise_size))

abbrev pub same_index : Option ℕ → ℕ → Bool
same_index none i = false
same_index (some j) i = j == i

unfoldable pub legal_actions : Table → ℕ → List LegalAction
unfolding legal_for find_seat
legal_actions t player = if not (is_betting t.street) then [] else elim t.to_act_seat [
  | none ↦ []
  | some i ↦
      if not (same_index (find_seat t.seats player) i)
      then []
      else elim (seat_at t.seats i) [ none ↦ [] | some p ↦ legal_for t p ]
]
