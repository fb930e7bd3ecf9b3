-- ===== src/Tournament/Engine.antt =====
-- packages/tournament/src/engine.ts and types.ts: a tournament, from its registration to its prizes.
-- A method leaves a tournament, beside the error that it threw, if any. The order of the ids as
-- texts, by which `start` sorts them, and the time are arguments.
use Prim.Native.String.{String}
use vr_poker.Prelude.{
  ℕ, suc, ◌-◌, ◌*◌, Bool, true, false, not, Option, none, some, List, [], ◌∷◌, if◌then◌else◌, leb,
  ltb, ◌==◌, keep, length, map,
}
use vr_poker.Prelude.Int.{ℤ, pos}
use vr_poker.Prelude.Sort.{sort_by}
use vr_poker.Prelude.Maps.{lookup_in, write_in}
use vr_poker.Tournament.Payouts.{Floors, PlacePayout, compute_payouts}
use vr_poker.Tournament.Tables.{TournamentTable, TableId, build_tables, rebalance_tables}

pub data TournamentStatus : Type 0 where
  scheduled registering running completed cancelled : TournamentStatus

pub data TournamentError : Type 0 where
  too_few_min_players cannot_open_registration registration_closed : TournamentError
  already_registered tournament_full not_in_registering_state need_players : TournamentError
  tournament_not_running player_not_active winner_not_found : TournamentError

pub record TournamentConfig : Type 0 where
  pub id : ℕ
  pub name : String
  pub buy_in : ℕ
  pub starting_stack : ℕ
  pub seats_per_table : ℕ
  pub max_players : ℕ
  pub starts_at : String
  pub level_minutes : ℕ
  pub min_players : ℕ

pub record TournamentPlayer : Type 0 where
  pub player_id : ℕ
  pub name : String
  pub stack : ℕ
  pub table_id : Option TableId
  pub seat : Option ℕ
  pub eliminated_at : Option String
  pub finish_place : Option ℕ
  pub prize_chips : ℤ
  pub leaderboard_points : ℕ

abbrev pub Players : Type 0
Players = List (ℕ × TournamentPlayer)

pub record Tournament : Type 0 where
  pub config : TournamentConfig
  pub status : TournamentStatus
  pub players : Players
  pub tables : List TournamentTable
  pub started_at : Option String
  pub completed_at : Option String
  pub level : ℕ
  pub finish_order : List ℕ
  pub payouts : List PlacePayout

abbrev pub Step : Type 0
Step = Option TournamentError × Tournament

unfoldable pub new_tournament : TournamentConfig → Option Tournament
new_tournament config =
    if ltb config.min_players 2
    then none
    else some record {
      config = config;
      status = scheduled;
      players = [];
      tables = [];
      started_at = none;
      completed_at = none;
      level = 1;
      finish_order = [];
      payouts = [];
    }

abbrev pub is_status : TournamentStatus → TournamentStatus → Bool
is_status scheduled scheduled = true
is_status registering registering = true
is_status running running = true
is_status completed completed = true
is_status cancelled cancelled = true
is_status _ _ = false

unfoldable pub open_registration : Tournament → Step
open_registration t =
    if not (is_status t.status scheduled)
    then (some cannot_open_registration, t)
    else (none, record t { status = registering })

abbrev pub is_some : {A : Type 0} → Option A → Bool
is_some none = false
is_some (some a) = true

abbrev pub entrant : ℕ → String → ℕ → TournamentPlayer
entrant id name stack = record {
  player_id = id;
  name = name;
  stack = stack;
  table_id = none;
  seat = none;
  eliminated_at = none;
  finish_place = none;
  prize_chips = pos 0;
  leaderboard_points = 0;
}

unfoldable pub register : ℕ → String → Tournament → Step
register id name t =
    if not (is_status t.status registering)
    then (some registration_closed, t)
    else if is_some (lookup_in id t.players)
    then (some already_registered, t)
    else if leb t.config.max_players (length t.players)
    then (some tournament_full, t)
    else (
      none,
      record t { players = write_in id (entrant id name t.config.starting_stack) t.players },
    )

abbrev pub is_alive : TournamentPlayer → Bool
is_alive p = not (is_some p.eliminated_at)

unfoldable pub alive : Tournament → List TournamentPlayer
alive t = keep is_alive (map (λ e. e.1) t.players)

abbrev pub change_player : ℕ → (TournamentPlayer → TournamentPlayer) → Players → Players
change_player id f ps = elim (lookup_in id ps) [ none ↦ ps | some p ↦ write_in id (f p) ps ]

abbrev pub seated_at : TableId → ℕ → TournamentPlayer → TournamentPlayer
seated_at table i p = if is_alive p then record p { table_id = some table; seat = some i } else p

abbrev pub assign_table : TableId → ℕ → List ℕ → Players → Players
assign_table table i [] ps = ps
assign_table table i (id ∷ ids) ps =
    assign_table table (suc i) ids (change_player id (seated_at table i) ps)

unfoldable pub assign_seats : List TournamentTable → Players → Players
assign_seats [] ps = ps
assign_seats (t ∷ ts) ps = assign_seats ts (assign_table t.id 0 t.player_ids ps)

unfoldable pub start : String → (ℕ → ℕ → Bool) → Tournament → Step
unfolding build_tables assign_seats
start now before t =
    let ids = sort_by before (map (λ e. e.0) t.players) in
    let tables = build_tables ids t.config.seats_per_table t.config.id in
    if not (is_status t.status registering)
    then (some not_in_registering_state, t)
    else if ltb (length t.players) t.config.min_players
    then (some need_players, t)
    else (
      none,
      record t {
        status = running;
        started_at = some now;
        tables = tables;
        players = assign_seats tables t.players;
      },
    )

unfoldable pub prize_pool : Tournament → ℕ
prize_pool t = length t.players * t.config.buy_in

abbrev pub rewarded : PlacePayout → TournamentPlayer → TournamentPlayer
rewarded row p = record p { prize_chips = row.chips; leaderboard_points = row.leaderboard_points }

-- A row without a player, of an empty order, cannot arise: the winner is in the order.
abbrev pub reward_all : List PlacePayout → Players → Players
reward_all [] ps = ps
reward_all (row ∷ rows) ps =
    reward_all rows
      (elim row.player_id [ none ↦ ps | some id ↦ change_player id (rewarded row) ps ])

-- `complete`, from the place where the winner `w` is known
unfoldable pub complete_with : String → Floors → ℕ → TournamentPlayer → Tournament → Tournament
unfolding compute_payouts
complete_with now fl winner w t =
    let players =
      if is_alive w
      then write_in winner (record w { finish_place = some 1 }) t.players
      else t.players in
    let order = if is_alive w then winner ∷ t.finish_order else t.finish_order in
    let paid = compute_payouts fl (length players * t.config.buy_in) order in
    record t {
      status = completed;
      completed_at = some now;
      finish_order = order;
      payouts = paid;
      players = reward_all paid players;
    }

unfoldable pub complete : String → Floors → ℕ → Tournament → Step
unfolding complete_with
complete now fl winner t =
    if not (is_status t.status running) then (none, t) else elim (lookup_in winner t.players) [
      | none ↦ (some winner_not_found, t)
      | some w ↦ (none, complete_with now fl winner w t)
    ]

abbrev pub without_player : ℕ → TournamentTable → TournamentTable
without_player id t = record t { player_ids = keep (λ p. not (p == id)) t.player_ids }

-- `bust`, up to the test for the last player
unfoldable pub eliminate : String → ℕ → TournamentPlayer → Tournament → Tournament
unfolding rebalance_tables assign_seats
eliminate now id p t =
    let place = length t.players - length t.finish_order in
    let out : TournamentPlayer = record p {
      eliminated_at = some now;
      stack = 0;
      finish_place = some place;
    } in
    let tables = rebalance_tables (map (without_player id) t.tables) t.config.seats_per_table in
    record t {
      players = assign_seats tables (write_in id out t.players);
      finish_order = id ∷ t.finish_order;
      tables = tables;
    }

abbrev pub complete_last : String → Floors → List TournamentPlayer → Tournament → Step
complete_last now fl (p ∷ []) t = complete now fl p.player_id t
complete_last now fl _ t = (none, t)

unfoldable pub bust : String → Floors → ℕ → Tournament → Step
unfolding eliminate complete alive
bust now fl id t =
    if not (is_status t.status running)
    then (some tournament_not_running, t)
    else elim (lookup_in id t.players) [
      | none ↦ (some player_not_active, t)
      | some p ↦
          if not (is_alive p)
          then (some player_not_active, t)
          else let t' = eliminate now id p t in complete_last now fl (alive t') t'
    ]
