-- ===== src/Tournament/Leaderboard.antt =====
-- packages/tournament/src/engine.ts and types.ts: `snapshot`, and the leaderboard.
use Prim.Native.String.{String}
use vr_poker.Prelude.{
  ℕ, suc, ◌+◌, ◌≡◌, Bool, false, Option, none, some, List, [], ◌∷◌, map, take, length, ◌==◌,
  if◌then◌else◌, arith, Bool-cases, Option-cases, inl, inr, ltb,
}
use vr_poker.Prelude.Sort.{sort_by}
use vr_poker.Prelude.Sums.{sum_of}
use vr_poker.Prelude.Maps.{lookup_in, write_in, sum_of-write_in}
use vr_poker.Tournament.Payouts.{PlacePayout}
use vr_poker.Tournament.Tables.{TournamentTable}
use vr_poker.Tournament.Engine.{Tournament, TournamentPlayer, TournamentStatus, alive, prize_pool}

pub record TournamentSnapshot : Type 0 where
  pub id : ℕ
  pub name : String
  pub status : TournamentStatus
  pub buy_in : ℕ
  pub starting_stack : ℕ
  pub prize_pool : ℕ
  pub starts_at : String
  pub started_at : Option String
  pub completed_at : Option String
  pub level : ℕ
  pub players_remaining : ℕ
  pub registered : ℕ
  pub tables : List TournamentTable
  pub players : List TournamentPlayer
  pub payouts : List PlacePayout

unfoldable pub snapshot : Tournament → TournamentSnapshot
unfolding alive prize_pool
snapshot t = record {
  id = t.config.id;
  name = t.config.name;
  status = t.status;
  buy_in = t.config.buy_in;
  starting_stack = t.config.starting_stack;
  prize_pool = prize_pool t;
  starts_at = t.config.starts_at;
  started_at = t.started_at;
  completed_at = t.completed_at;
  level = t.level;
  players_remaining = length (alive t);
  registered = length t.players;
  tables = t.tables;
  players = map (λ e. e.1) t.players;
  payouts = t.payouts;
}

pub record LeaderboardEntry : Type 0 where
  pub player_id : ℕ
  pub name : String
  pub points : ℕ
  pub tournaments : ℕ
  pub wins : ℕ

abbrev pub Board : Type 0
Board = List (ℕ × LeaderboardEntry)

abbrev pub is_first : Option ℕ → Bool
is_first none = false
is_first (some place) = place == 1

abbrev pub new_entry : TournamentPlayer → LeaderboardEntry
new_entry p = record {
  player_id = p.player_id;
  name = p.name;
  points = 0;
  tournaments = 0;
  wins = 0;
}

abbrev pub counted : TournamentPlayer → LeaderboardEntry → LeaderboardEntry
counted p cur = record cur {
  points = cur.points + p.leaderboard_points;
  tournaments = suc cur.tournaments;
  wins = if is_first p.finish_place then suc cur.wins else cur.wins;
}

abbrev pub record_player : TournamentPlayer → Board → Board
record_player p board =
    if p.leaderboard_points == 0
    then board
    else write_in p.player_id
        (counted p (elim (lookup_in p.player_id board) [ none ↦ new_entry p | some cur ↦ cur ]))
        board

abbrev pub record_players : List TournamentPlayer → Board → Board
record_players [] board = board
record_players (p ∷ ps) board = record_players ps (record_player p board)

unfoldable pub record_leaderboard : Tournament → Board → Board
unfolding snapshot
record_leaderboard t board = record_players (snapshot t).players board

-- by points, the most first
unfoldable pub get_leaderboard : ℕ → Board → List LeaderboardEntry
get_leaderboard limit board =
    take limit (sort_by (λ a b. ltb b.points a.points) (map (λ e. e.1) board))

unfoldable pub reset_leaderboard : Board → Board
reset_leaderboard board = []

abbrev pub points_on : Board → ℕ
points_on board = sum_of (λ e. e.1.points) board

new_key :
    (k : ℕ) (b : LeaderboardEntry) (board : Board)
    → lookup_in k board ≡ none
    → points_on (write_in k b board) ≡ points_on board + b.points
new_key k b [] e = omega arith
new_key k b ((j, c) ∷ board) e = elim (Bool-cases (j == k)) [
  | inl y ↦ let e' = rw y at e in absurd cc
  | inr n ↦ let e' = rw n at e in rw n (omega (arith, new_key k b board e'))
]

record_player-points :
    (p : TournamentPlayer) (board : Board)
    → points_on (record_player p board) ≡ points_on board + p.leaderboard_points
record_player-points p board = elim (Bool-cases (p.leaderboard_points == 0)) [
  | inl y ↦ rw y (ground (arith, y))
  | inr n ↦ elim (Option-cases (lookup_in p.player_id board)) [
    | inl e ↦ rw (n, e) (omega (arith, new_key p.player_id (counted p (new_entry p)) board e))
    | inr (cur, e) ↦
        rw (n, e)
          (omega (arith, sum_of-write_in (λ c. c.points) p.player_id (counted p cur) board e))
  ]
]

record_players-points :
    (ps : List TournamentPlayer) (board : Board)
    → points_on (record_players ps board) ≡ points_on board + sum_of (λ p. p.leaderboard_points) ps
record_players-points [] board = omega arith
record_players-points (p ∷ ps) board =
    omega (arith, record_players-points ps (record_player p board), record_player-points p board)

-- Recording a tournament adds the points of its players to the leaderboard, and no others, whoever
-- stood on it before.
pub record_leaderboard-points :
    (t : Tournament) (board : Board)
    → points_on (record_leaderboard t board)
      ≡ points_on board + sum_of (λ p. p.leaderboard_points) (snapshot t).players
unfolding record_leaderboard
record_leaderboard-points t board = record_players-points (snapshot t).players board
