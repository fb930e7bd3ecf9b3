-- ===== src/Server/Ops.antt =====
-- services/game-server/src/table-ops.ts, and of app.ts `ensureAccount`, `broadcastTable`,
-- `armTimeout` and what the routes of a table do after they know whom they act for.
-- A request is answered as a whole, one after another. A buy-in is an integer; ids are numbers.
use Prim.Native.String.{String, len}
use vr_poker.Prelude.{ℕ, Option, none, some, List, ◌==◌, if◌then◌else◌, ltb, find}
use vr_poker.Prelude.Int.{ℤ, pos}
use vr_poker.Prelude.Maps.{lookup_in, write_in, erase_in}
use vr_poker.Ledger.Entries.{LedgerError, Fallible, done, failed}
use vr_poker.Table.State.{Table, PlayerAction, fold}
use vr_poker.Table.Monad.{Error, Result, ok, err}
use vr_poker.Table.Play.{sit, add_on, cash_out, act, start_hand}
use vr_poker.Table.Settle.{finalize_hand_if_complete}
use vr_poker.Table.Snapshot.{snapshot, TableSnapshot}
use vr_poker.Server.Port.{ChipLedgerPort}

-- `timers` has the player whom a pending timeout folds, by the id of the table.
pub record Server (L : Type 0) : Type 0 where
  pub tables : List (ℕ × Table)
  pub ledger : L
  pub names : List (ℕ × String)
  pub timers : List (ℕ × ℕ)

-- The errors: of a table, of the ledger, and "table not found".
pub data ServerError : Type 0 where
  of_table : Error → ServerError
  of_ledger : LedgerError → ServerError
  table_not_found : ServerError

pub data Reply (A : Type 0) : Type 0 where
  answered : A → Reply A
  refused : ServerError → Reply A

-- the player whose turn a snapshot shows
abbrev pub actor_in : TableSnapshot → Option ℕ
actor_in snap = elim snap.to_act_seat [
  | none ↦ none
  | some seat ↦ elim (find (λ p. p.seat == seat) snap.players) [
    | none ↦ none
    | some p ↦ p.player_id
  ]
]

abbrev pub timer_for : ℕ → Option ℕ → List (ℕ × ℕ) → List (ℕ × ℕ)
timer_for id none timers = timers
timer_for id (some player) timers = write_in id player timers

module _ {L : Type 0} where
  -- the table of an id, after a method of it
  abbrev pub put_table : ℕ → Table → Server L → Server L
  put_table id t s = record s { tables = write_in id t s.tables }

  abbrev pub put_ledger : L → Server L → Server L
  put_ledger l s = record s { ledger = l }

  -- `armTimeout`: a pending timeout is cleared, and one for the player to act is set
  unfoldable pub arm_timeout : ℕ → Table → Server L → Server L
  unfolding snapshot
  arm_timeout id t s = record s {
    timers = timer_for id (actor_in (snapshot none t)) (erase_in id s.timers);
  }

  -- `broadcastTable`, less the messages: it finishes a hand that awaits it
  unfoldable pub broadcast_table : ℕ → Server L → Server L
  unfolding finalize_hand_if_complete
  broadcast_table id s = elim (lookup_in id s.tables) [
    | none ↦ s
    | some t ↦ put_table id (finalize_hand_if_complete t).1 s
  ]

  -- `startTableHand`
  abbrev pub after_start : ℕ → Server L → Result (Unit {0}) × Table → Reply Table × Server L
  after_start id s (err e, t) = (refused (of_table e), put_table id t s)
  after_start id s (ok a, t) = (answered t, arm_timeout id t (put_table id t s))

  unfoldable pub start_table_hand : ℕ → Server L → Reply Table × Server L
  unfolding start_hand arm_timeout
  start_table_hand id s = elim (lookup_in id s.tables) [
    | none ↦ (refused table_not_found, s)
    | some t ↦ after_start id s (start_hand t)
  ]

  -- the route of an action
  abbrev pub after_act : ℕ → Server L → Result (Unit {0}) × Table → Reply Table × Server L
  after_act id s (err e, t) = (refused (of_table e), put_table id t s)
  after_act id s (ok a, t) = (answered t, broadcast_table id (arm_timeout id t (put_table id t s)))

  unfoldable pub act_at_table : ℕ → ℕ → PlayerAction → Server L → Reply Table × Server L
  unfolding act arm_timeout broadcast_table
  act_at_table id player action s = elim (lookup_in id s.tables) [
    | none ↦ (refused table_not_found, s)
    | some t ↦ after_act id s (act player action t)
  ]

  -- a timeout that fires folds its player, and an error of that is dropped
  abbrev pub after_fold : ℕ → Server L → Result (Unit {0}) × Table → Server L
  after_fold id s (err e, t) = put_table id t s
  after_fold id s (ok a, t) =
      let seen = broadcast_table id (put_table id t s) in
      elim (lookup_in id seen.tables) [ none ↦ seen | some u ↦ arm_timeout id u seen ]

  unfoldable pub fire_timeout : ℕ → Server L → Server L
  unfolding act arm_timeout broadcast_table
  fire_timeout id s = elim (lookup_in id s.timers) [
    | none ↦ s
    | some player ↦
        let spent : Server L = record s { timers = erase_in id s.timers } in
        elim (lookup_in id s.tables) [
          | none ↦ spent
          | some t ↦ after_fold id spent (act player (record { type = fold; amount = none }) t)
        ]
  ]

  -- a name that is not empty is kept
  abbrev pub keep_name : ℕ → String → Server L → Server L
  keep_name player name s =
      if len name == 0 then s else record s { names = write_in player name s.names }

  abbrev pub with_reply : Server L → Fallible (Unit {0}) × L → Fallible (Unit {0}) × Server L
  with_reply s (r, l) = (r, put_ledger l s)

  -- the compensation: what was taken is cashed out, and the table's error thrown again, unless the
  -- ledger throws another
  abbrev pub give_back : Error → Server L → Fallible (Unit {0}) × L → Reply Table × Server L
  give_back e s (done a, l) = (refused (of_table e), put_ledger l s)
  give_back e s (failed x, l) = (refused (of_ledger x), put_ledger l s)

  abbrev pub after_credit : ℕ → Server L → Fallible (Unit {0}) × L → Reply ℕ × Server L
  after_credit chips s (done a, l) = (answered chips, put_ledger l s)
  after_credit chips s (failed x, l) = (refused (of_ledger x), put_ledger l s)

module _ {L : Type 0} (port : ChipLedgerPort L) where
  unfoldable pub ensure_account : ℕ → String → Server L → Fallible (Unit {0}) × Server L
  ensure_account player name s =
      let named = keep_name player name s in
      with_reply named (port.ensure_account player (some name) named.ledger)

  -- what a table did with chips that were taken from the ledger for it, or the compensation
  abbrev pub or_refund :
      {A : Type 0} → ℕ → ℕ → ℤ → Server L → Result A × Table → Reply Table × Server L
  or_refund id player amount s (ok a, t) = (answered t, put_table id t s)
  or_refund id player amount s (err e, t) =
      let left = put_table id t s in give_back e left (port.cash_out player amount id left.ledger)

  -- after the debit of the ledger, where `brought` is what the call of the table then gives
  abbrev pub after_debit :
      {A : Type 0}
      → ℕ
      → ℕ
      → ℤ
      → Result A × Table
      → Server L
      → Fallible (Unit {0}) × L
      → Reply Table × Server L
  after_debit id player amount brought s (failed x, l) = (refused (of_ledger x), put_ledger l s)
  after_debit id player amount brought s (done a, l) =
      or_refund id player amount (put_ledger l s) brought

  abbrev pub after_ensure :
      ℕ
      → ℕ
      → String
      → ℤ
      → Option ℤ
      → Table
      → Fallible (Unit {0}) × Server L
      → Reply Table × Server L
  after_ensure id player name buy seat t (failed x, s) = (refused (of_ledger x), s)
  after_ensure id player name buy seat t (done a, s) =
      after_debit id player buy (sit player name buy seat t) s (port.buy_in player buy id s.ledger)

  -- `sitAtTable`
  unfoldable pub sit_at_table : ℕ → ℕ → String → ℤ → Option ℤ → Server L → Reply Table × Server L
  unfolding sit ensure_account
  sit_at_table id player name buy seat s = elim (lookup_in id s.tables) [
    | none ↦ (refused table_not_found, s)
    | some t ↦ after_ensure id player name buy seat t (ensure_account player name s)
  ]

  -- the route of an add-on
  unfoldable pub add_on_at_table : ℕ → ℕ → ℤ → Server L → Reply Table × Server L
  unfolding add_on
  add_on_at_table id player amount s = elim (lookup_in id s.tables) [
    | none ↦ (refused table_not_found, s)
    | some t ↦
        after_debit id player amount (add_on player amount t) s
          (port.add_on player amount id s.ledger)
  ]

  abbrev pub after_cash_out : ℕ → ℕ → Server L → Result ℕ × Table → Reply ℕ × Server L
  after_cash_out id player s (err e, t) = (refused (of_table e), put_table id t s)
  after_cash_out id player s (ok chips, t) =
      let left = put_table id t s in
      if ltb 0 chips
      then after_credit chips left (port.cash_out player (pos chips) id left.ledger)
      else (answered chips, left)

  -- `leaveTable`
  unfoldable pub leave_table : ℕ → ℕ → Server L → Reply ℕ × Server L
  unfolding cash_out
  leave_table id player s = elim (lookup_in id s.tables) [
    | none ↦ (refused table_not_found, s)
    | some t ↦ after_cash_out id player s (cash_out player t)
  ]
