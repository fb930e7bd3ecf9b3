-- ===== src/Table/Seats.antt =====
-- packages/core/src/table.ts: the searches over the seats, the movement of chips into the pot and
-- the turn order.
use vr_poker.Prelude.{
  ℕ, zero, suc, ◌+◌, ◌-◌, ◌%◌, Bool, true, false, not, ◌&&◌, Option, none, some, List, [], ◌∷◌, ltb,
  ◌==◌, if◌then◌else◌, length, get_elem?, set, keep, find_index,
}
use vr_poker.Table.State.{Table, Seat}
use vr_poker.Table.Monad.{
  Action, or_throw, gets, modify, throw_if, ◌>>=◌, ◌>>◌, invalid_chip_put, null_access, not_seated,
}

abbrev pub Seats : Type 0
Seats = List (Option Seat)

-- `this.seats[i]`, where a place that is out of range has nobody either
abbrev pub seat_at : Seats → ℕ → Option Seat
seat_at seats i = elim (get_elem? seats i) [ none ↦ none | some s ↦ s ]

unfoldable pub occupied : Seats → List Seat
occupied [] = []
occupied (none ∷ seats) = occupied seats
occupied (some s ∷ seats) = s ∷ occupied seats

abbrev occupied_from : ℕ → Seats → List ℕ
occupied_from i [] = []
occupied_from i (none ∷ seats) = occupied_from (suc i) seats
occupied_from i (some s ∷ seats) = i ∷ occupied_from (suc i) seats

unfoldable pub occupied_seat_indexes : Seats → List ℕ
occupied_seat_indexes = occupied_from 0

unfoldable pub live : Seats → List Seat
unfolding occupied
live seats = keep (λ p. not p.folded) (occupied seats)

abbrev pub in_turn_order : Option Seat → Bool
in_turn_order none = false
in_turn_order (some p) = not p.folded && not p.sitting_out

unfoldable pub live_seat_indexes : Seats → List ℕ
unfolding occupied_seat_indexes
live_seat_indexes seats = keep (λ i. in_turn_order (seat_at seats i)) (occupied_seat_indexes seats)

abbrev pub is_player : ℕ → Option Seat → Bool
is_player id none = false
is_player id (some s) = s.player_id == id

-- `none` is -1
unfoldable pub find_seat : Seats → ℕ → Option ℕ
find_seat seats id = find_index (is_player id) seats

unfoldable pub require_seat : ℕ → Action ℕ
unfolding find_seat
require_seat id = do seats ← gets (λ t. t.seats); or_throw (find_seat seats id) not_seated

unfoldable pub seat_ref : ℕ → Action Seat
seat_ref i = do p ← gets (λ t. seat_at t.seats i); or_throw p null_access

-- a write through a reference to the seat
abbrev pub with_seat : ℕ → (Seat → Seat) → Table → Table
with_seat i f t = elim (seat_at t.seats i) [
  | none ↦ t
  | some p ↦ record t { seats = set t.seats i (some (f p)) }
]

unfoldable pub update_seat : ℕ → (Seat → Seat) → Action (Unit {0})
update_seat i f = modify (with_seat i f)

-- `for (const s of this.occupied()) …`
unfoldable pub for_occupied : (Seat → Seat) → Seats → Seats
for_occupied f [] = []
for_occupied f (none ∷ seats) = none ∷ for_occupied f seats
for_occupied f (some s ∷ seats) = some (f s) ∷ for_occupied f seats

abbrev pub put_in : ℕ → Seat → Seat
put_in amount p =
    let left = p.stack - amount in
    record p {
      stack = left;
      street_commit = p.street_commit + amount;
      hand_commit = p.hand_commit + amount;
      is_all_in = if left == 0 then true else p.is_all_in;
    }

-- `put`, on the player at seat `i`; the amounts of its callers are not negative.
-- the amount is a whole number of chips
unfoldable pub put : ℕ → ℕ → Action (Unit {0})
unfolding seat_ref update_seat
put i amount = do
  p ← seat_ref i
  throw_if (ltb p.stack amount) invalid_chip_put
  update_seat i (put_in amount)

-- the rounds of `nextLiveSeat` at `from + i`, `left` of them
abbrev live_seat_from : Seats → ℕ → ℕ → ℕ → ℕ → Option ℕ
live_seat_from seats count from i zero = none
live_seat_from seats count from i (suc left) =
    let later = live_seat_from seats count from (suc i) left in
    let idx = (from + i) % count in if in_turn_order (seat_at seats idx) then some idx else later

-- `none` is the thrown error
unfoldable pub next_live_seat : Seats → ℕ → ℕ → Option ℕ
next_live_seat seats count from = live_seat_from seats count from 1 count

abbrev pub can_be_button : Option Seat → Bool
can_be_button none = false
can_be_button (some p) = not p.sitting_out && ltb 0 p.stack

abbrev button_from : Seats → ℕ → ℕ → ℕ → ℕ → ℕ
button_from seats count from i zero = from
button_from seats count from i (suc left) =
    let later = button_from seats count from (suc i) left in
    let idx = (from + i) % count in if can_be_button (seat_at seats idx) then idx else later

abbrev first_of_list : List ℕ → Option ℕ
first_of_list [] = none
first_of_list (x ∷ xs) = some x

unfoldable pub advance_button : Table → Table
unfolding occupied_seat_indexes
advance_button t = elim t.button_seat [
  | none ↦ record t { button_seat = first_of_list (occupied_seat_indexes t.seats) }
  | some b ↦ record t { button_seat = some (button_from t.seats t.config.seats b 1 t.config.seats) }
]

abbrev pub not_folded : Option Seat → Bool
not_folded none = false
not_folded (some p) = not p.folded

abbrev order_from : Seats → ℕ → ℕ → ℕ → ℕ → List ℕ
order_from seats count start i zero = []
order_from seats count start i (suc left) =
    let later = order_from seats count start (suc i) left in
    let idx = (start + i) % count in if not_folded (seat_at seats idx) then idx ∷ later else later

unfoldable pub deal_order : Seats → ℕ → ℕ → List ℕ
deal_order seats count button = order_from seats count button 1 count

-- `seatedCount`
unfoldable pub seated_count : Seats → ℕ
unfolding occupied
seated_count seats = length (keep (λ s. not s.sitting_out) (occupied seats))
