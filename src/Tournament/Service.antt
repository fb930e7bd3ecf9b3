-- ===== src/Tournament/Service.antt =====
-- services/tournament/src/index.ts: what the routes of the service do, after they know whom they act
-- for, over the ledger in memory.
-- The clock and the order of ids are arguments, and so are the text of an id and the time that a text
-- names.
use Prim.Native.String.{String}
use vr_poker.Prelude.{ℕ, Bool, true, not, Option, none, some, List, [], ◌∷◌, if◌then◌else◌}
use vr_poker.Prelude.Int.{pos, ltb_ℤ}
use vr_poker.Prelude.Maps.{lookup_in, write_in}
use vr_poker.Ledger.Entries.{
  LedgerEntry, LedgerError, done, failed, tournament_buy_in, tournament_prize,
}
use vr_poker.Ledger.Chips.{negated}
use vr_poker.Ledger.Store.{MemoryLedgerStore, UserAccount, Answer, ensure_user, store_append}
use vr_poker.Tournament.Payouts.{Floors, PlacePayout}
use vr_poker.Tournament.Engine.{
  Tournament, TournamentConfig, TournamentError, Step, is_status, registering, completed,
  new_tournament, open_registration, register, start, bust, too_few_min_players,
}
use vr_poker.Tournament.Scheduler.{Jobs, schedule, unschedule}
use vr_poker.Tournament.Leaderboard.{Board, record_leaderboard}

pub data ServiceError : Type 0 where
  of_tournament : TournamentError → ServiceError
  of_ledger : LedgerError → ServiceError
  tournament_not_found : ServiceError

abbrev pub Tournaments : Type 0
Tournaments = List (ℕ × Tournament)

-- A scheduled start works on the time and the tournaments.
abbrev pub World : Type 0
World = String × Tournaments

pub record TournamentService : Type 0 where
  pub store : MemoryLedgerStore
  pub tournaments : Tournaments
  pub jobs : Jobs World
  pub board : Board

abbrev pub Handled : Type 0
Handled = Option ServiceError × TournamentService

abbrev pub put_tournament : ℕ → Tournament → TournamentService → TournamentService
put_tournament id t s = record s { tournaments = write_in id t s.tournaments }

abbrev pub put_store : MemoryLedgerStore → TournamentService → TournamentService
put_store m s = record s { store = m }

-- what a method of a tournament left, and the error it threw
abbrev pub stepped : ℕ → TournamentService → Step → Handled
stepped id s (none, t) = (none, put_tournament id t s)
stepped id s (some e, t) = (some (of_tournament e), put_tournament id t s)

module _ (before : ℕ → ℕ → Bool) where
  -- the start of a job: an error of `start` is caught
  abbrev pub auto_start : ℕ → World → Bool × World
  auto_start id (now, ts) = elim (lookup_in id ts) [
    | none ↦ (true, (now, ts))
    | some t ↦ (true, (now, write_in id (start now before t).1 ts))
  ]

  -- `wireAutoStart`
  unfoldable pub wire_auto_start :
      (String → Option ℕ) → Tournament → TournamentService → TournamentService
  unfolding schedule start
  wire_auto_start time_of t s = if not (is_status t.status registering) then s else record s {
    jobs =
        schedule
          (record {
            id = t.config.id;
            starts_at = time_of t.config.starts_at;
            start = auto_start t.config.id;
          })
          s.jobs;
  }

  abbrev pub opened : (String → Option ℕ) → TournamentService → Step → Handled
  opened time_of s (some e, t) = (some (of_tournament e), s)
  opened time_of s (none, t) = (none, wire_auto_start time_of t (put_tournament t.config.id t s))

  -- the route that makes a tournament
  unfoldable pub create_tournament :
      (String → Option ℕ) → TournamentConfig → TournamentService → Handled
  unfolding new_tournament open_registration wire_auto_start
  create_tournament time_of config s = elim (new_tournament config) [
    | none ↦ (some (of_tournament too_few_min_players), s)
    | some t ↦ opened time_of s (open_registration t)
  ]

  abbrev pub unscheduled : ℕ → Handled → Handled
  unscheduled id (none, s) = (none, record s { jobs = unschedule id s.jobs })
  unscheduled id (some e, s) = (some e, s)

  -- the route that starts one
  unfoldable pub start_tournament : String → ℕ → TournamentService → Handled
  unfolding start unschedule
  start_tournament now id s = elim (lookup_in id s.tournaments) [
    | none ↦ (some tournament_not_found, s)
    | some t ↦ unscheduled id (stepped id s (start now before t))
  ]

abbrev pub after_buy_in :
    ℕ → ℕ → String → Tournament → TournamentService → Answer LedgerEntry → Handled
after_buy_in id player name t s (failed e, m) = (some (of_ledger e), put_store m s)
after_buy_in id player name t s (done entry, m) =
    stepped id (put_store m s) (register player name t)

abbrev pub after_account :
    String
    → (ℕ → String)
    → ℕ
    → ℕ
    → String
    → Tournament
    → TournamentService
    → Answer UserAccount
    → Handled
after_account now text_of id player name t s (failed e, m) = (some (of_ledger e), put_store m s)
after_account now text_of id player name t s (done u, m) = after_buy_in id player name t s (
    store_append now player (negated (some (pos t.config.buy_in))) tournament_buy_in
      (some (text_of id)) m)

-- the route of a registration
unfoldable pub register_player :
    String → (ℕ → String) → ℕ → ℕ → String → TournamentService → Handled
unfolding register store_append ensure_user
register_player now text_of id player name s = elim (lookup_in id s.tournaments) [
  | none ↦ (some tournament_not_found, s)
  | some t ↦ after_account now text_of id player name t s (ensure_user now player none s.store)
]

abbrev pub then_paid :
    (MemoryLedgerStore → Answer (Unit {0})) → Answer LedgerEntry → Answer (Unit {0})
then_paid k (failed e, m) = (failed e, m)
then_paid k (done entry, m) = k m

-- the loop of `payPrizes`; a row has a player, since a place is paid to one who finished
unfoldable pub pay_rows : String → String → List PlacePayout → MemoryLedgerStore → Answer (Unit {0})
unfolding store_append
pay_rows now ref [] m = (done tt, m)
pay_rows now ref (row ∷ rows) m =
    let rest = pay_rows now ref rows in
    elim row.player_id [
      | none ↦ rest m
      | some player ↦
          if ltb_ℤ (pos 0) row.chips
          then then_paid rest
              (store_append now player (some row.chips) tournament_prize (some ref) m)
          else rest m
    ]

abbrev pub after_prizes : Tournament → TournamentService → Answer (Unit {0}) → Handled
after_prizes t s (failed e, m) = (some (of_ledger e), put_store m s)
after_prizes t s (done a, m) = (none, record s { store = m; board = record_leaderboard t s.board })

-- `payPrizes`
unfoldable pub pay_prizes : String → (ℕ → String) → Tournament → TournamentService → Handled
unfolding pay_rows record_leaderboard
pay_prizes now text_of t s =
    if not (is_status t.status completed)
    then (none, s)
    else after_prizes t s (pay_rows now (text_of t.config.id) t.payouts s.store)

abbrev pub after_bust : String → (ℕ → String) → ℕ → TournamentService → Step → Handled
after_bust now text_of id s (some e, t) = (some (of_tournament e), put_tournament id t s)
after_bust now text_of id s (none, t) = pay_prizes now text_of t (put_tournament id t s)

-- the route of a bust
unfoldable pub bust_player : String → (ℕ → String) → Floors → ℕ → ℕ → TournamentService → Handled
unfolding bust pay_prizes
bust_player now text_of fl id player s = elim (lookup_in id s.tournaments) [
  | none ↦ (some tournament_not_found, s)
  | some t ↦ after_bust now text_of id s (bust now fl player t)
]
