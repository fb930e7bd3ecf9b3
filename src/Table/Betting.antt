-- ===== src/Table/Betting.antt =====
-- packages/core/src/table.ts: `applyAction`, and when a betting round is closed.
use vr_poker.Prelude.{
  ℕ, ◌+◌, ◌-◌, Bool, true, false, not, ◌&&◌, ◌||◌, Option, none, some, List, [], ◌∷◌, ltb, leb,
  ◌==◌, if◌then◌else◌, min, max, find, some_of, every, keep, length,
}
use vr_poker.Prelude.Int.{ℤ, pos, pos_part, ltb_ℤ}
use vr_poker.Table.State.{
  Table, Seat, ActionType, fold, check, call, bet, raise, all_in, LegalAction, PlayerAction, folds,
  checks, calls, bets, raises_to, goes_all_in,
}
use vr_poker.Table.Monad.{
  Action, or_throw, gets, modify, throw_if, log, skip, ◌>>=◌, ◌>>◌, illegal_action,
  bet_out_of_range, raise_out_of_range,
}
use vr_poker.Table.Seats.{live, seat_ref, update_seat, for_occupied, put}

abbrev pub same_type : ActionType → ActionType → Bool
same_type fold fold = true
same_type check check = true
same_type call call = true
same_type bet bet = true
same_type raise raise = true
same_type all_in all_in = true
same_type _ _ = false

abbrev pub spec_of : ActionType → List LegalAction → Option LegalAction
spec_of a legal = find (λ l. same_type l.type a) legal

-- `spec.min!` and `spec.max!`
abbrev pub limit_of : Option ℕ → ℕ
limit_of none = 0
limit_of (some n) = n

-- `action.amount ?? 0`
abbrev pub amount_or_zero : Option ℤ → ℤ
amount_or_zero none = pos 0
amount_or_zero (some n) = n

-- `amount < spec.min! || amount > spec.max!`
abbrev pub outside : ℤ → LegalAction → Bool
outside amount spec =
    ltb_ℤ amount (pos (limit_of spec.min)) || ltb_ℤ (pos (limit_of spec.max)) amount

-- `resetActionExcept`
abbrev pub reopen_for : ℕ → Seat → Seat
reopen_for id s =
    if s.player_id == id || s.folded || s.is_all_in
    then s
    else record s { acted_this_round = false }

unfoldable pub reset_action_except : ℕ → Action (Unit {0})
reset_action_except id = modify (λ t. record t { seats = for_occupied (reopen_for id) t.seats })

unfoldable pub apply_fold : ℕ → Action (Unit {0})
apply_fold i = do
  update_seat i (λ p. record p { folded = true })
  p ← seat_ref i
  log (folds p.name)

unfoldable pub apply_check : ℕ → Action (Unit {0})
apply_check i = do p ← seat_ref i; log (checks p.name)

unfoldable pub apply_call : ℕ → Action (Unit {0})
unfolding put
apply_call i = do
  p ← seat_ref i
  current ← gets (λ t. t.current_bet)
  let to_call = min (current - p.street_commit) p.stack
  put i to_call
  log (calls p.name to_call)

-- the amount of a bet is a whole number; NaN passes the comparisons of the source
unfoldable pub apply_bet : ℕ → ℤ → LegalAction → Action (Unit {0})
unfolding put
apply_bet i amount spec = do
  throw_if (outside amount spec) bet_out_of_range
  put i (pos_part amount)
  p ← seat_ref i
  modify (λ t. record t {
    current_bet = p.street_commit;
    last_full_raise_size = max (pos_part amount - t.current_bet) t.config.big_blind;
  })
  reset_action_except p.player_id
  log (bets p.name (pos_part amount))

-- and so is that of a raise
unfoldable pub apply_raise : ℕ → ℤ → LegalAction → Action (Unit {0})
unfolding put
apply_raise i raise_to spec = do
  throw_if (outside raise_to spec) raise_out_of_range
  before ← seat_ref i
  current ← gets (λ t. t.current_bet)
  full ← gets (λ t. t.last_full_raise_size)
  let raise_size = pos_part raise_to - current
  put i (pos_part raise_to - before.street_commit)
  p ← seat_ref i
  modify (λ t. record t { current_bet = p.street_commit })
  (if leb full raise_size
      then modify (λ t. record t { last_full_raise_size = raise_size })
        >> reset_action_except p.player_id
      else skip)
  log (raises_to p.name (pos_part raise_to))

unfoldable pub apply_all_in : ℕ → Action (Unit {0})
unfolding put
apply_all_in i = do
  p ← seat_ref i
  current ← gets (λ t. t.current_bet)
  full ← gets (λ t. t.last_full_raise_size)
  let new_commit = p.street_commit + p.stack
  let raise_size = new_commit - current
  put i p.stack
  (if ltb current new_commit
      then modify (λ t. record t { current_bet = new_commit })
        >> (if leb full raise_size && ltb 0 raise_size
            then modify (λ t. record t { last_full_raise_size = raise_size })
              >> reset_action_except p.player_id
            else skip)
      else skip)
  log (goes_all_in p.name new_commit)

-- the `switch`, on an action whose type is legal
unfoldable pub apply_legal : ℕ → ActionType → ℤ → LegalAction → Action (Unit {0})
unfolding apply_fold apply_check apply_call apply_bet apply_raise apply_all_in
apply_legal i fold amount spec = apply_fold i
apply_legal i check amount spec = apply_check i
apply_legal i call amount spec = apply_call i
apply_legal i bet amount spec = apply_bet i amount spec
apply_legal i raise amount spec = apply_raise i amount spec
apply_legal i all_in amount spec = apply_all_in i

-- `applyAction`, on the player at seat `i`: a type that `legal` does not list is refused.
unfoldable pub apply_action : ℕ → PlayerAction → List LegalAction → Action (Unit {0})
unfolding apply_legal seat_ref update_seat reset_action_except
apply_action i action legal = do
  spec ← or_throw (spec_of action.type legal) illegal_action
  apply_legal i action.type (amount_or_zero action.amount) spec

abbrev pub matched : ℕ → Seat → Bool
matched current p = p.acted_this_round && (p.street_commit == current || p.is_all_in)

-- the single player who can still act, when the current is matched
abbrev lone_closed : ℕ → List Seat → Seat → Bool
lone_closed current live_ones a =
    let others_matched =
      every (λ p. p.is_all_in || p.street_commit == a.street_commit || p.street_commit == current)
        live_ones in
    if others_matched && a.acted_this_round
    then true
    else if length (keep (λ p. not p.is_all_in) live_ones) == 1
        && some_of (λ p. p.is_all_in) live_ones
    then a.acted_this_round || leb current a.street_commit
    else matched current a && true

abbrev pub closed_among : ℕ → List Seat → List Seat → Bool
closed_among current live_ones [] = true
closed_among current live_ones (a ∷ []) =
    if leb current a.street_commit
    then lone_closed current live_ones a
    else matched current a && true
closed_among current live_ones (a ∷ b ∷ rest) = every (matched current) (a ∷ b ∷ rest)

unfoldable pub betting_closed : Table → Bool
unfolding live
betting_closed t =
    let live_ones = live t.seats in
    if leb (length live_ones) 1
    then true
    else closed_among t.current_bet live_ones (keep (λ p. not p.is_all_in) live_ones)
