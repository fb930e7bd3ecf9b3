-- ===== src/Server/Casino/Rpc.antt =====
-- services/game-server/src/casino/rpc.ts: the calls of a casino client that work on a table.
-- A number of a client is an integer, and a session has been checked by `check_pin`.
use Prim.Native.String.{String}
use vr_poker.Prelude.{
  ℕ, ◌≤◌, ◌≡◌, ◌⊎◌, inl, inr, refl, sym, Bool, false, ◌&&◌, Option, none, some, List, arith, find,
  some_of, ◌==◌, if◌then◌else◌, Bool-cases,
}
use vr_poker.Prelude.Int.{ℤ, pos, ◌+ℤ◌, ◌-ℤ◌, ◌≤ℤ◌, ltb_ℤ, +ℤ_parts, -ℤ_parts}
use vr_poker.Prelude.Maps.{lookup_in}
use vr_poker.Ledger.Entries.{done, failed}
use vr_poker.Table.State.{Table, TableConfig, PlayerAction, ActionType, bet, raise, LegalAction}
use vr_poker.Table.Monad.{Result, ok, err}
use vr_poker.Table.Play.{act}
use vr_poker.Table.Snapshot.{snapshot, PublicPlayer}
use vr_poker.Server.Port.{ChipLedgerPort}
use vr_poker.Server.Ops.{of_table, table_not_found, put_table, arm_timeout}
use vr_poker.Server.Casino.Map.{CasinoCmds, cmds_for_actor, is_raise, raise_increment_range}
use vr_poker.Server.Casino.Runtime.{
  Casino, CasinoError, Outcome, gives, throws, of_server, of_ledger, notify, casino_sit, leave_seat,
  leave_room, is_player,
}

-- The errors of `rpc.ts` itself beside those of the runtime.
pub data RpcError : Type 0 where
  not_in_room not_enough_coins : RpcError
  of_casino : CasinoError → RpcError

abbrev pub Ret : Type 0 → Type 0 → Type 0
Ret L A = (RpcError ⊎ A) × Casino L

-- `casinoRaiseTo`
unfoldable pub casino_raise_to : ℕ → ℤ → ℕ → PlayerAction
casino_raise_to current_bet increment street_commit =
    if current_bet == 0 && street_commit == 0
    then record { type = bet; amount = some increment }
    else record { type = raise; amount = some (pos current_bet +ℤ increment) }

-- the number that comes with a call; only a bet and a raise read it
unfoldable pub resolve_casino_action : ActionType → ℤ → ℕ → ℕ → PlayerAction
unfolding casino_raise_to
resolve_casino_action raise n current_bet street_commit =
    casino_raise_to current_bet n street_commit
resolve_casino_action bet n current_bet street_commit = record { type = bet; amount = some n }
resolve_casino_action a n current_bet street_commit = record { type = a; amount = none }

abbrev pub commit_of : Option PublicPlayer → ℕ
commit_of none = 0
commit_of (some p) = p.street_commit

-- the buy-in of one who takes a seat; `none` is "no enough coins"
unfoldable pub seat_buy_in : TableConfig → ℤ → Option ℤ
seat_buy_in config balance =
    let at_least =
      if ltb_ℤ balance (pos config.min_buy_in) then pos config.min_buy_in else balance in
    let buy_in =
      if ltb_ℤ (pos config.max_buy_in) at_least then pos config.max_buy_in else at_least in
    if ltb_ℤ balance (pos config.min_buy_in) then none else some buy_in

module _ {L : Type 0} where
  abbrev pub after_act : ℕ → ℕ → Casino L → Result (Unit {0}) × Table → Ret L CasinoCmds
  after_act id uid c (err e, t) =
      (inl (of_casino (of_server (of_table e))), record c { server = put_table id t c.server })
  after_act id uid c (ok a, t) =
      let seen = notify id (record c { server = arm_timeout id t (put_table id t c.server) }) in
      (
        elim (lookup_in id seen.server.tables) [
          | none ↦ inl (of_casino (of_server table_not_found))
          | some u ↦ inr (cmds_for_actor (snapshot (some uid) u))
        ],
        seen,
      )

  -- the calls "fold", "check", "call", "all_in", "raise" and "bet"
  unfoldable pub act_in_room : ℕ → ActionType → ℤ → Casino L → Ret L CasinoCmds
  unfolding resolve_casino_action act arm_timeout notify snapshot cmds_for_actor
  act_in_room uid a n c = elim (lookup_in uid c.rooms) [
    | none ↦ (inl not_in_room, c)
    | some id ↦ elim (lookup_in id c.server.tables) [
      | none ↦ (inl (of_casino (of_server table_not_found)), c)
      | some t ↦
          let before = snapshot (some uid) t in
          let commit = commit_of (find (is_player uid) before.players) in
          after_act id uid c (act uid (resolve_casino_action a n before.current_bet commit) t)
    ]
  ]

abbrev pub ret_of : {L A : Type 0} → Outcome A × Casino L → Ret L A
ret_of (gives a, c) = (inr a, c)
ret_of (throws e, c) = (inl (of_casino e), c)

module _ {L : Type 0} (port : ChipLedgerPort L) (text_of : ℕ → String) where
  -- the call "takeseat"
  unfoldable pub take_seat : ℕ → Option ℤ → Casino L → Ret L (Unit {0})
  unfolding seat_buy_in casino_sit
  take_seat uid seat c = elim (lookup_in uid c.rooms) [
    | none ↦ (inl not_in_room, c)
    | some id ↦ elim (lookup_in id c.server.tables) [
      | none ↦ (inl (of_casino (of_server table_not_found)), c)
      | some t ↦ elim (port.balance uid c.server.ledger) [
        | failed e ↦ (inl (of_casino (of_ledger e)), c)
        | done coins ↦ elim (seat_buy_in t.config coins) [
          | none ↦ (inl not_enough_coins, c)
          | some buy_in ↦
              let name : String = elim (lookup_in uid c.server.names) [
                | none ↦ text_of uid
                | some n ↦ n
              ] in
              ret_of (casino_sit port id uid name buy_in seat c)
        ]
      ]
    ]
  ]

  abbrev pub gone : {A : Type 0} → Bool → ℕ → Ret L A → Ret L (Unit {0})
  gone leaves uid (inl e, c) = (inl e, c)
  gone leaves uid (inr a, c) = (inr tt, if leaves then leave_room uid c else c)

  -- the calls "leave" and "unseat"
  unfoldable pub leave_call : Bool → ℕ → Casino L → Ret L (Unit {0})
  unfolding snapshot leave_seat leave_room
  leave_call leaves uid c = elim (lookup_in uid c.rooms) [
    | none ↦ (inr tt, c)
    | some id ↦ elim (lookup_in id c.server.tables) [
      | none ↦ (inl (of_casino (of_server table_not_found)), c)
      | some t ↦
          if some_of (is_player uid) (snapshot none t).players
          then gone leaves uid (ret_of (leave_seat port id uid c))
          else (inr tt, if leaves then leave_room uid c else c)
    ]
  ]

-- What a client buys in for is within the rules of the table, and its balance covers it.
pub seat_buy_in-fits :
    (config : TableConfig) (balance buy_in : ℤ)
    → config.min_buy_in ≤ config.max_buy_in
    → seat_buy_in config balance ≡ some buy_in
    → (pos config.min_buy_in ≤ℤ buy_in) × (buy_in ≤ℤ pos config.max_buy_in) × (buy_in ≤ℤ balance)
unfolding seat_buy_in
seat_buy_in-fits config balance buy_in h e =
    let lo = pos config.min_buy_in in
    let hi = pos config.max_buy_in in
    elim (Bool-cases (ltb_ℤ balance lo)) [
      | inl y ↦ let never = rw (seat_buy_in, y) at e in absurd cc
      | inr n ↦ elim (Bool-cases (ltb_ℤ hi balance)) [
        | inl above ↦
            let found = rw (seat_buy_in, n, above) at e in
            let same : hi ≡ buy_in = cc in
            rw (sym same) (omega (arith, h), ground arith, ground (arith, above))
        | inr within ↦
            let found = rw (seat_buy_in, n, within) at e in
            let same : balance ≡ buy_in = cc in
            rw (sym same) (ground (arith, n), ground (arith, within), ground arith)
      ]
    ]

bounds_moved :
    (current_bet low high : ℕ) (n : ℤ)
    → (pos low -ℤ pos current_bet) ≤ℤ n
    → n ≤ℤ (pos high -ℤ pos current_bet)
    → (pos low ≤ℤ (pos current_bet +ℤ n)) × ((pos current_bet +ℤ n) ≤ℤ pos high)
bounds_moved current_bet low high n l h =
    let low_parts = -ℤ_parts (pos low) (pos current_bet) in
    let high_parts = -ℤ_parts (pos high) (pos current_bet) in
    let sum = +ℤ_parts (pos current_bet) n in
    (omega (arith, l, low_parts, sum), omega (arith, h, high_parts, sum))

-- A raise that a client makes by an increment within those that it was offered is a raise to an amount
-- within the bounds of the raise that the table allows.
pub increment-legal :
    (current_bet commit : ℕ) (legal : List LegalAction) (a : LegalAction) (low high : ℕ)
    (lo hi n : ℤ)
    → 1 ≤ current_bet
    → find is_raise legal ≡ some a
    → a.min ≡ some low
    → a.max ≡ some high
    → raise_increment_range current_bet legal ≡ some (lo, hi)
    → lo ≤ℤ n
    → n ≤ℤ hi
    → (resolve_casino_action raise n current_bet commit
        ≡ record { type = raise; amount = some (pos current_bet +ℤ n) })
      × (pos low ≤ℤ (pos current_bet +ℤ n))
      × ((pos current_bet +ℤ n) ≤ℤ pos high)
unfolding raise_increment_range resolve_casino_action casino_raise_to
increment-legal current_bet commit legal a low high lo hi n some_bet f m x e l h =
    let shown = rw (raise_increment_range, f, m, x) at e in
    let lo_is : pos low -ℤ pos current_bet ≡ lo = cc in
    let hi_is : pos high -ℤ pos current_bet ≡ hi = cc in
    let opened : (current_bet == 0) ≡ false = ground (arith, some_bet) in
    let (above, below) = bounds_moved current_bet low high n (rw lo_is l) (rw hi_is h) in
    (rw opened refl, above, below)
