-- ===== src/Tournament/Examples.antt =====
-- The theorems on tournaments at concrete ones.

use vr_poker.Prelude.{ℕ, ◌+◌, ◌/◌, ◌*◌, ◌≡◌, refl, true, none, some, [], ◌∷◌}
use vr_poker.Prelude.Int.{pos, ◌+ℤ◌, ◌-ℤ◌}
use vr_poker.Ledger.Chips.{append, balance}
use vr_poker.Ledger.Store.{empty_store, ensure_user, store_append}
use vr_poker.Tournament.Engine.{Tournament, registering, register, tournament_full}
use vr_poker.Tournament.Scheduler.{ScheduledTournament, Jobs}
use vr_poker.Tournament.Service.{TournamentService, register_player, of_tournament}
use vr_poker.Tournament.Charges.{Charged, register_player-Charged}
use vr_poker.Tournament.Payouts.{Floors, compute_payouts, compute_payouts-total, total_chips}

abbrev halves : Floors
halves = record { fifteen_percent = λ n. n * 15 / 100; share = λ pool paid i. pool / 2 }

compute_payouts-total_example : total_chips (compute_payouts halves 301 (7 ∷ 4 ∷ 9 ∷ [])) ≡ pos 301
compute_payouts-total_example = compute_payouts-total halves 301 (7 ∷ 4 ∷ 9 ∷ [])

-- two jobs, of which the first is due at 10
abbrev job : ℕ → ℕ → ScheduledTournament ℕ
job id at = record { id = id; starts_at = some at; start = λ w. (true, w + id) }

abbrev jobs : Jobs ℕ
jobs = (4, job 4 9) ∷ (5, job 5 11) ∷ []

abbrev cup : Tournament
cup = record {
  config = record {
    id = 1;
    name = "Cup";
    buy_in = 1000;
    starting_stack = 10_000;
    seats_per_table = 6;
    max_players = 1;
    starts_at = "tonight";
    level_minutes = 10;
    min_players = 2;
  };
  status = registering;
  players = [];
  tables = [];
  started_at = none;
  completed_at = none;
  level = 1;
  finish_order = [];
  payouts = [];
}

abbrev office : TournamentService
office = record { store = empty_store; tournaments = (1, cup) ∷ []; jobs = []; board = [] }

abbrev entered : TournamentService
entered = (register_player "now" (λ id. "cup") 1 7 "Ann" office).1

-- the second player finds the tournament full, and has paid
paid_and_refused :
    let late = register_player "now" (λ id. "cup") 1 8 "Bob" entered in
    (late.0 ≡ some (of_tournament tournament_full)) × (balance 8 late.1.store.chips ≡ pos 99_000)
unfolding register_player register append ensure_user store_append ◌-ℤ◌ ◌+ℤ◌
paid_and_refused = (refl, refl)

register_player-Charged_example :
    Charged 1 7 cup
      (ensure_user "now" 7 none office.store).1.chips
      (register_player "now" (λ id. "cup") 1 7 "Ann" office)
register_player-Charged_example =
    register_player-Charged "now" (λ id. "cup") 1 7 "Ann" office cup refl
