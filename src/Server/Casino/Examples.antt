-- ===== src/Server/Casino/Examples.antt =====
-- Tests of services/game-server/src/casino, and the theorems at concrete clients.

use vr_poker.Prelude.{ℕ, ◌≡◌, ◌⊎◌, refl, false, none, some, List, [], ◌∷◌, some_of, arith}
use vr_poker.Prelude.Int.{pos, ◌+ℤ◌, ◌-ℤ◌, ◌≤ℤ◌}
use vr_poker.Ledger.Chips.{ChipLedger, empty_ledger, balance}
use vr_poker.Table.State.{LegalAction, fold, raise, flop}
use vr_poker.Table.Legal.{plain, ranged}
use vr_poker.Table.Snapshot.{TableSnapshot, PublicPlayer}
use vr_poker.Table.Scenes.{config_of}
use vr_poker.Server.LocalPort.{local_port}
use vr_poker.Server.Casino.Map.{cmds_for_actor, raise_increment_range}
use vr_poker.Server.Casino.Offered.{is_offered, cmd_of, same_type, cmds_for_actor-offered}
use vr_poker.Server.Casino.Runtime.{Casino, login}
use vr_poker.Server.Casino.Sessions.{Admitted, login-Admitted}
use vr_poker.Server.LocalOthers.{local_port-KeepsOthers}
use vr_poker.Server.Casino.Calls.{RpcReq, takes_seat, logs_in}
use vr_poker.Server.Casino.Dispatch.{handle_rpc}
use vr_poker.Server.Casino.Access.{Checked, handle_rpc-Checked}
use vr_poker.Server.Casino.Balances.{acts_for, handle_rpc-balances}
use vr_poker.Server.Casino.Rpc.{seat_buy_in, resolve_casino_action, increment-legal}

abbrev player : ℕ → ℕ → PublicPlayer
player id seat = record {
  player_id = some id;
  name = "P";
  seat = seat;
  stack = 900;
  street_commit = 100;
  hand_commit = 100;
  folded = false;
  is_all_in = false;
  sitting_out = false;
  hole = some ((65 ∷ 115 ∷ []) ∷ []);
}

abbrev legal : List LegalAction
legal = plain fold ∷ ranged raise 300 1000 ∷ []

abbrev snap : TableSnapshot
snap = record {
  table_id = 3;
  street = flop;
  hand_id = 1;
  button_seat = some 0;
  to_act_seat = some 0;
  current_bet = 200;
  min_raise_to = 300;
  pot = 300;
  board = [];
  burns = [];
  commitment = none;
  reveal = none;
  players = player 7 0 ∷ player 8 1 ∷ [];
  legal = legal;
  last_events = [];
  winners = none;
}

cmds_for_actor-offered_example :
    is_offered (cmd_of raise (cmds_for_actor snap))
    ≡ some_of (λ l. same_type raise l.type) snap.legal
cmds_for_actor-offered_example = cmds_for_actor-offered raise snap refl

abbrev casino : Casino ChipLedger
casino = record {
  server = record { tables = []; ledger = empty_ledger; names = []; timers = [] };
  rooms = [];
  ready = [];
  pins = (7, 11) ∷ [];
  passwords = (7, 99) ∷ [];
  user_seq = 1000;
}

login-Admitted_example :
    Admitted
      (local_port "now" (λ id. "table"))
      7
      (some 98)
      13
      casino
      (login (local_port "now" (λ id. "table")) (λ id. "Ann") 7 (some 98) 12 13 casino)
login-Admitted_example =
    login-Admitted (local_port "now" (λ id. "table")) (λ id. "Ann") 7 (some 98) 12 13 casino

bought : seat_buy_in (config_of 2) (pos 50_000) ≡ some (pos 20_000)
unfolding seat_buy_in
bought = refl

shown : raise_increment_range 200 legal ≡ some (pos 100, pos 800)
unfolding raise_increment_range ◌-ℤ◌
shown = refl

increment-legal_example :
    (resolve_casino_action raise (pos 150) 200 100
      ≡ record { type = raise; amount = some (pos 200 +ℤ pos 150) })
    × (pos 300 ≤ℤ (pos 200 +ℤ pos 150))
    × ((pos 200 +ℤ pos 150) ≤ℤ pos 1000)
increment-legal_example =
    increment-legal 200 100 legal (ranged raise 300 1000) 300 1000 (pos 100) (pos 800) (pos 150)
      (omega arith) refl refl refl shown (omega arith) (omega arith)

-- the user 7 asks for a seat, with a pin
abbrev asking : ℕ → RpcReq
asking pin = record { seq = 1; uid = some 7; pin = some pin; call = takes_seat none }

-- a wrong pin is refused, and the right one gets as far as the room
asked :
    ((handle_rpc
        (local_port "now" (λ id. "table"))
        (λ id. "Ann")
        (λ id. "room")
        3
        (λ n. n)
        (λ n. 9)
        21
        22
        23
        (asking 12)
        none
        casino).0.err
      ≡ 403)
    × ((handle_rpc
          (local_port "now" (λ id. "table"))
          (λ id. "Ann")
          (λ id. "room")
          3
          (λ n. n)
          (λ n. 9)
          21
          22
          23
          (asking 11)
          none
          casino).0.err
        ≡ 400)
unfolding handle_rpc
asked = (refl, refl)

handle_rpc-Checked_example : Checked (asking 12) none casino (
    handle_rpc
      (local_port "now" (λ id. "table"))
      (λ id. "Ann")
      (λ id. "room")
      3
      (λ n. n)
      (λ n. 9)
      21
      22
      23
      (asking 12)
      none
      casino)
handle_rpc-Checked_example =
    handle_rpc-Checked (local_port "now" (λ id. "table")) (λ id. "Ann") (λ id. "room") 3 (λ n. n)
      (λ n. 9) 21 22 23 none casino (asking 12) refl

-- a login of the user 7, which opens an account
abbrev logging : RpcReq
logging = record { seq = 2; uid = none; pin = none; call = logs_in 7 (some 99) }

handle_rpc-balances_example :
    (balance 8
        (handle_rpc
          (local_port "now" (λ id. "table"))
          (λ id. "Ann")
          (λ id. "room")
          3
          (λ n. n)
          (λ n. 9)
          21
          22
          23
          logging
          none
          casino).1.server.ledger
      ≡ balance 8 casino.server.ledger)
    ⊎ (acts_for 1001 none logging ≡ some 8)
handle_rpc-balances_example =
    handle_rpc-balances (local_port "now" (λ id. "table"))
      (local_port-KeepsOthers "now" (λ id. "table")) (λ id. "Ann") (λ id. "room") 3 8 (λ n. n)
      (λ n. 9) 21 22 23 none casino logging
