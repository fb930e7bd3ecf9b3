-- ===== src/Server/Examples.antt =====
-- Tests of services/game-server/src: a server with one table and the ledger in memory.

use vr_poker.Prelude.{List, ◌≡◌, refl, false, none, [], ◌∷◌}
use vr_poker.Prelude.Int.{pos, negsuc, ◌+ℤ◌, ◌-ℤ◌}
use vr_poker.Ledger.Entries.{seed}
use vr_poker.Ledger.Chips.{
  ChipLedger, empty_ledger, balance, post_buy_in, post_cash_out, post_add_on,
}
use vr_poker.Ledger.Balances.{IsSolvent}
use vr_poker.Table.State.{Table, waiting}
use vr_poker.Table.Monad.{running, already_seated}
use vr_poker.Table.Scenes.{config_of, source}
use vr_poker.Table.Play.{sit, cash_out, add_on}
use vr_poker.Server.Port.{ChipLedgerPort, IsPort}
use vr_poker.Server.Interleaved.{
  System, Event, asks_add_on, asks_seat, goes_on, plays_out, happens, proceed,
}
use vr_poker.Server.Flight.{all_chips, openings, plays_out-chips}
use vr_poker.Server.LocalTotal.{total_of, local_port-IsTotal}
use vr_poker.Server.LocalPort.{local_port, local_port-IsPort, open_account}
use vr_poker.Server.Ops.{
  Server, ensure_account, sit_at_table, add_on_at_table, leave_table, answered, refused, of_table,
}
use vr_poker.Server.Balance.{worth, on_tables, requests-worth}

abbrev port : ChipLedgerPort ChipLedger
port = local_port "now" (λ id. "table")

abbrev table : Table
table = record {
  table_id = 3;
  config = config_of 2;
  deal_source = source;
  seats = none ∷ none ∷ [];
  street = waiting;
  hand_id = 0;
  button_seat = none;
  to_act_seat = none;
  current_bet = 0;
  last_full_raise_size = 0;
  board = [];
  burns = [];
  deal = none;
  events = [];
  winners = none;
  flop_seen = false;
  hand_awaiting_finalize = false;
}

abbrev server : Server ChipLedger
server = record { tables = (3, table) ∷ []; ledger = empty_ledger; names = []; timers = [] }

-- the server after a player has sat down with 5000 chips
abbrev seated : Server ChipLedger
seated = (sit_at_table port 3 7 "Ann" (pos 5000) none server).1

sat_down : (balance 7 seated.ledger ≡ pos 95_000) × (on_tables seated.tables ≡ 5000)
unfolding sit_at_table sit running open_account post_buy_in ◌-ℤ◌ ◌+ℤ◌
sat_down = (refl, refl)

-- a second buy-in of the same player is refused, and its buy-in given back
sat_twice :
    let again = sit_at_table port 3 7 "Ann" (pos 5000) none seated in
    (again.0 ≡ refused (of_table already_seated)) × (balance 7 again.1.ledger ≡ pos 95_000)
unfolding sit_at_table sit running open_account post_buy_in post_cash_out ◌-ℤ◌ ◌+ℤ◌
sat_twice = (refl, refl)

left_again :
    let gone = leave_table port 3 7 seated in
    (gone.0 ≡ answered 5000) × (balance 7 gone.1.ledger ≡ pos 100_000)
unfolding sit_at_table leave_table sit cash_out running open_account post_buy_in post_cash_out ◌-ℤ◌
    ◌+ℤ◌
left_again = (refl, refl)

empty-IsSolvent : IsSolvent empty_ledger
unfolding balance
empty-IsSolvent user = refl

-- an add-on of a negative amount, and a buy-in of one who is to open an account
requests-worth_example :
    (worth port 7 (sit_at_table port 3 7 "Ann" (pos 5000) none server).1
      ≡ worth port 7 (ensure_account port 7 "Ann" server).1)
    × (worth port 7 (add_on_at_table port 3 7 (negsuc 4) server).1 ≡ worth port 7 server)
    × (worth port 7 (leave_table port 3 7 server).1 ≡ worth port 7 server)
requests-worth_example =
    requests-worth port (local_port-IsPort "now" (λ id. "table")) 7 3 "Ann" (pos 5000) (negsuc 4)
      none server table empty-IsSolvent refl refl

local_port-IsPort_example : IsPort (local_port "now" (λ id. "table")) IsSolvent
local_port-IsPort_example = local_port-IsPort "now" (λ id. "table")

-- a player with 1000 chips
abbrev funded : System ChipLedger
funded = record {
  tables = (3, table) ∷ [];
  ledger = record {
    entries =
        record { id = 1; at = "now"; user_id = 7; amount = pos 1000; reason = seed; ref = none }
        ∷ [];
    next_id = 2;
  };
  jobs = [];
  lost = pos 0;
}

-- An add-on of -5000 is credited before the table refuses it; a buy-in that comes between spends the
-- chips, and the compensation is refused.
abbrev race : List Event
race =
    asks_add_on 3 7 (negsuc 4999)
    ∷ asks_seat 3 7 "Ann" (pos 6000) none
    ∷ goes_on 0
    ∷ goes_on 0
    ∷ goes_on 0
    ∷ goes_on 0
    ∷ []

out_of_nothing :
    let after = plays_out port race funded in
    (on_tables after.tables ≡ 6000) × (balance 7 after.ledger ≡ pos 0) × (after.lost ≡ negsuc 4999)
unfolding happens proceed sit running open_account post_buy_in post_cash_out post_add_on add_on ◌-ℤ◌
    ◌+ℤ◌
out_of_nothing = (refl, refl, refl)

plays_out-chips_example :
    all_chips total_of (plays_out port race funded)
    ≡ all_chips total_of funded +ℤ openings port total_of race funded
plays_out-chips_example =
    plays_out-chips port total_of (local_port-IsTotal "now" (λ id. "table")) race funded (refl, tt)
