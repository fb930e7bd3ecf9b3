-- ===== src/Tournament/Tables.antt =====
-- packages/tournament/src/balance.ts: the seating of the players at tables.
-- The id of a table, `prefix-t1` and so on, is its prefix and its number; `final` has the number 0.
use vr_poker.Prelude.{
  ℕ, zero, suc, ◌+◌, ◌-◌, ◌/◌, ◌%◌, Bool, true, false, not, ◌||◌, List, [], ◌∷◌, ◌++◌,
  if◌then◌else◌, leb, ltb, keep, length,
}
use vr_poker.Prelude.Sums.{sum_of}

abbrev pub TableId : Type 0
TableId = ℕ × ℕ

pub record TournamentTable : Type 0 where
  pub id : TableId
  pub player_ids : List ℕ

abbrev empty_tables : ℕ → ℕ → ℕ → List TournamentTable
empty_tables prefix i zero = []
empty_tables prefix i (suc n) =
    record { id = (prefix, suc i); player_ids = [] } ∷ empty_tables prefix (suc i) n

abbrev seat_one : TournamentTable → ℕ → TournamentTable
seat_one t p = record t { player_ids = t.player_ids ++ (p ∷ []) }

-- `tables[i].playerIds.push(p)`
abbrev push_at : ℕ → ℕ → List TournamentTable → List TournamentTable
push_at i p [] = []
push_at zero p (t ∷ ts) = seat_one t p ∷ ts
push_at (suc i) p (t ∷ ts) = t ∷ push_at i p ts

abbrev seat_from : ℕ → ℕ → List ℕ → List TournamentTable → List TournamentTable
seat_from count i [] ts = ts
seat_from count i (p ∷ ps) ts = seat_from count (suc i) ps (push_at (i % count) p ts)

-- Tables have at least one seat.
unfoldable pub build_tables : List ℕ → ℕ → ℕ → List TournamentTable
build_tables [] seats prefix = []
build_tables (p ∷ ps) seats prefix =
    let count = (length (p ∷ ps) + seats - 1) / seats in
    seat_from count 0 (p ∷ ps) (empty_tables prefix 0 count)

abbrev players_at : TournamentTable → ℕ
players_at t = length t.player_ids

abbrev has_players : TournamentTable → Bool
has_players t = ltb 0 (players_at t)

abbrev all_players : List TournamentTable → List ℕ
all_players [] = []
all_players (t ∷ ts) = t.player_ids ++ all_players ts

abbrev first_id : List TournamentTable → TableId
first_id [] = (0, 0)
first_id (t ∷ ts) = t.id

-- the `while` loop: the players that fit move to the donor, and the others stay
abbrev move_to : ℕ → List ℕ → List ℕ → List ℕ × List ℕ
move_to seats [] donor = ([], donor)
move_to seats (p ∷ ps) donor =
    let rest = move_to seats ps (donor ++ (p ∷ [])) in
    if ltb (length donor) seats then rest else (p ∷ ps, donor)

-- the first table of `big` with a free seat takes the players, who are given back when none has
abbrev move_into_first : ℕ → List ℕ → List TournamentTable → List ℕ × List TournamentTable
move_into_first seats ps [] = (ps, [])
move_into_first seats ps (b ∷ bs) =
    let later = move_into_first seats ps bs in
    if ltb (players_at b) seats
    then (
      (move_to seats ps b.player_ids).0,
      record b { player_ids = (move_to seats ps b.player_ids).1 } ∷ bs,
    )
    else (later.0, b ∷ later.1)

abbrev empty_small :
    ℕ → List TournamentTable → List TournamentTable → List TournamentTable × List TournamentTable
empty_small seats [] big = ([], big)
empty_small seats (s ∷ ss) big =
    let moved = move_into_first seats s.player_ids big in
    let rest = empty_small seats ss moved.1 in (record s { player_ids = moved.0 } ∷ rest.0, rest.1)

abbrev is_empty : List TournamentTable → Bool
is_empty [] = true
is_empty (t ∷ ts) = false

abbrev is_small : TournamentTable → Bool
is_small t = leb (players_at t) 2

unfoldable pub rebalance_tables : List TournamentTable → ℕ → List TournamentTable
rebalance_tables tables seats =
    let live = keep has_players tables in
    let small = keep is_small live in
    let big = keep (λ t. not (is_small t)) live in
    let moved = empty_small seats small big in
    if leb (sum_of players_at live) seats
    then record { id = first_id live; player_ids = all_players live } ∷ []
    else if is_empty small || is_empty big
    then live
    else keep has_players (moved.1 ++ moved.0)
