-- ===== src/Server/Casino/Runtime.antt =====
-- services/game-server/src/casino/runtime.ts: `CasinoRuntime`.
-- Passwords and pins are only compared, and stand as numbers; an empty one is `none`. A new pin is an
-- argument, as is the text of an id. The count of a text's UTF-8 bytes is zero where it is empty.
use Prim.Native.String.{String, len}
use vr_poker.Prelude.{
  ℕ, suc, Bool, true, false, not, ◌&&◌, Option, none, some, List, [], ◌∷◌, ◌++◌, length, keep,
  some_of, ◌==◌, if◌then◌else◌, leb, ltb,
}
use vr_poker.Prelude.Int.{ℤ}
use vr_poker.Prelude.Maps.{lookup_in, write_in, erase_in}
use vr_poker.Ledger.Entries.{LedgerError, Fallible, done, failed}
use vr_poker.Table.State.{Table}
use vr_poker.Table.Snapshot.{snapshot, TableSnapshot, PublicPlayer}
use vr_poker.Server.Port.{ChipLedgerPort}
use vr_poker.Server.Ops.{
  Server, ServerError, Reply, answered, refused, table_not_found, ensure_account, sit_at_table,
  leave_table, start_table_hand, broadcast_table,
}
use vr_poker.Server.Casino.Map.{is_waiting}

pub data CasinoError : Type 0 where
  of_server : ServerError → CasinoError
  of_ledger : LedgerError → CasinoError
  invalid_uid uid_exists wrong_password wrong_pin not_seated_here already_started : CasinoError

-- `rooms` has the table a player looks at, `ready` the players of a table who are ready.
pub record Casino (L : Type 0) : Type 0 where
  pub server : Server L
  pub rooms : List (ℕ × ℕ)
  pub ready : List (ℕ × List ℕ)
  pub pins : List (ℕ × ℕ)
  pub passwords : List (ℕ × ℕ)
  pub user_seq : ℕ

pub data Outcome (A : Type 0) : Type 0 where
  gives : A → Outcome A
  throws : CasinoError → Outcome A

pub record Login : Type 0 where
  pub pin : ℕ
  pub name : String
  pub coins : ℤ

abbrev pub is_kept : {A : Type 0} → Option A → Bool
is_kept none = false
is_kept (some a) = true

-- `if (!map.has(key)) map.set(key, value)`
abbrev pub set_new : ℕ → ℕ → List (ℕ × ℕ) → List (ℕ × ℕ)
set_new key value m = if is_kept (lookup_in key m) then m else write_in key value m

abbrev pub set_password : ℕ → Option ℕ → List (ℕ × ℕ) → List (ℕ × ℕ)
set_password uid none m = m
set_password uid (some p) m = set_new uid p m

abbrev pub same_password : Option ℕ → ℕ → Bool
same_password none stored = false
same_password (some p) stored = stored == p

abbrev pub is_player : ℕ → PublicPlayer → Bool
is_player player p = elim p.player_id [ none ↦ false | some id ↦ id == player ]

-- a member is added to a set
abbrev pub added : ℕ → List ℕ → List ℕ
added player set = if some_of (λ p. p == player) set then set else set ++ (player ∷ [])

abbrev pub is_seated : PublicPlayer → Bool
is_seated p = elim p.player_id [ none ↦ false | some id ↦ true ]

abbrev pub is_ready : List ℕ → PublicPlayer → Bool
is_ready set p = elim p.player_id [ none ↦ false | some id ↦ some_of (λ q. q == id) set ]

-- all who are seated are ready, and two of them at least
abbrev pub all_ready : List ℕ → List PublicPlayer → Bool
all_ready set players =
    let seated = keep is_seated players in
    let count = length (keep (is_ready set) seated) in leb 2 count && count == length seated

abbrev pub unready : ℕ → ℕ → List (ℕ × List ℕ) → List (ℕ × List ℕ)
unready id player ready = elim (lookup_in id ready) [
  | none ↦ ready
  | some set ↦ write_in id (keep (λ p. not (p == player)) set) ready
]

module _ {L : Type 0} where
  unfoldable pub notify : ℕ → Casino L → Casino L
  unfolding broadcast_table
  notify id c = record c { server = broadcast_table id (broadcast_table id c.server) }

  -- `none` where the pin is right
  unfoldable pub check_pin : ℕ → ℕ → Casino L → Option CasinoError
  check_pin uid pin c = elim (lookup_in uid c.pins) [
    | none ↦ some wrong_pin
    | some p ↦ if p == pin then none else some wrong_pin
  ]

  unfoldable pub enter_room : ℕ → ℕ → Casino L → Outcome (Unit {0}) × Casino L
  enter_room uid id c = elim (lookup_in id c.server.tables) [
    | none ↦ (throws (of_server table_not_found), c)
    | some t ↦ (gives tt, record c { rooms = write_in uid id c.rooms })
  ]

  unfoldable pub leave_room : ℕ → Casino L → Casino L
  leave_room uid c = record c { rooms = erase_in uid c.rooms }

  abbrev pub ready_at : ℕ → Casino L → List ℕ
  ready_at id c = elim (lookup_in id c.ready) [ none ↦ [] | some set ↦ set ]

  abbrev pub after_start : ℕ → Casino L → Reply Table × Server L → Outcome (Unit {0}) × Casino L
  after_start id c (refused e, s) = (throws (of_server e), record c { server = s })
  after_start id c (answered t, s) = (gives tt, notify id (record c { server = s }))

  abbrev pub ready_players : ℕ → ℕ → TableSnapshot → Casino L → Outcome (Unit {0}) × Casino L
  ready_players id player snap c =
      let set = added player (ready_at id c) in
      if all_ready set snap.players
      then after_start id (record c { ready = write_in id [] c.ready })
          (start_table_hand id c.server)
      else (gives tt, record c { ready = write_in id set c.ready })

  unfoldable pub mark_ready : ℕ → ℕ → Casino L → Outcome (Unit {0}) × Casino L
  unfolding snapshot start_table_hand notify
  mark_ready id player c = elim (lookup_in id c.server.tables) [
    | none ↦ (throws (of_server table_not_found), c)
    | some t ↦
        let snap = snapshot (some player) t in
        if not (some_of (is_player player) snap.players)
        then (throws not_seated_here, c)
        else if not (is_waiting snap.street)
        then (throws already_started, c)
        else ready_players id player snap c
  ]

  -- `ensureAccount`, where `pin` is the one that is drawn if there is none
  abbrev pub with_account :
      ℕ → Option ℕ → ℕ → Casino L → Fallible (Unit {0}) × Server L → Fallible (Unit {0}) × Casino L
  with_account uid password pin c (failed e, s) = (failed e, record c { server = s })
  with_account uid password pin c (done a, s) = (
    done tt,
    record c {
      server = s;
      passwords = set_password uid password c.passwords;
      pins = set_new uid pin c.pins;
    },
  )

  abbrev pub outcome_of : {A : Type 0} → A → Fallible (Unit {0}) × Casino L → Outcome A × Casino L
  outcome_of a (done u, c) = (gives a, c)
  outcome_of a (failed e, c) = (throws (of_ledger e), c)

  abbrev pub after_sit : ℕ → Casino L → Reply Table × Server L → Outcome (Unit {0}) × Casino L
  after_sit id c (refused e, s) = (throws (of_server e), record c { server = s })
  after_sit id c (answered t, s) = (gives tt, notify id (record c { server = s }))

  abbrev pub after_leave : ℕ → Casino L → Reply ℕ × Server L → Outcome ℕ × Casino L
  after_leave id c (refused e, s) = (throws (of_server e), record c { server = s })
  after_leave id c (answered chips, s) = (gives chips, notify id (record c { server = s }))

module _ {L : Type 0} (port : ChipLedgerPort L) where
  unfoldable pub casino_account :
      ℕ → String → Option ℕ → ℕ → Casino L → Fallible (Unit {0}) × Casino L
  unfolding ensure_account
  casino_account uid name password pin c =
      with_account uid password pin c (ensure_account port uid name c.server)

  -- `uid_of` names the next user
  unfoldable pub fast_signup :
      (ℕ → ℕ) → (ℕ → String) → ℕ → ℕ → Casino L → Outcome (ℕ × ℕ) × Casino L
  unfolding casino_account
  fast_signup uid_of text_of passwd pin c =
      let next : Casino L = record c { user_seq = suc c.user_seq } in
      let uid = uid_of next.user_seq in
      outcome_of (uid, passwd) (casino_account uid (text_of uid) (some passwd) pin next)

  -- `length_of` is the length of an id's text
  unfoldable pub signup :
      (ℕ → ℕ) → (ℕ → String) → ℕ → Option ℕ → String → ℕ → Casino L → Outcome (Unit {0}) × Casino L
  unfolding casino_account
  signup length_of text_of uid passwd name pin c =
      if ltb (length_of uid) 3
      then (throws invalid_uid, c)
      else if is_kept (lookup_in uid c.passwords)
      then (throws uid_exists, c)
      else outcome_of tt
          (casino_account uid (if len name == 0 then text_of uid else name) passwd pin c)

  -- what a login gives, once the balance is there or the ledger has failed to tell it
  abbrev pub with_coins : (ℕ → String) → ℕ → ℕ → Casino L → Fallible ℤ → Outcome Login
  with_coins text_of uid pin c (failed e) = throws (of_ledger e)
  with_coins text_of uid pin c (done coins) = gives record {
    pin = pin;
    name = elim (lookup_in uid c.server.names) [ none ↦ text_of uid | some n ↦ n ];
    coins = coins;
  }

  -- the new pin is in use before the balance is asked for
  abbrev pub logged_in : (ℕ → String) → ℕ → ℕ → Casino L → Outcome Login × Casino L
  logged_in text_of uid pin c = (
    with_coins text_of uid pin c (port.balance uid c.server.ledger),
    record c { pins = write_in uid pin c.pins },
  )

  abbrev pub checked_login :
      (ℕ → String) → ℕ → Option ℕ → ℕ → Fallible (Unit {0}) × Casino L → Outcome Login × Casino L
  checked_login text_of uid passwd pin (failed e, c) = (throws (of_ledger e), c)
  checked_login text_of uid passwd pin (done a, c) = elim (lookup_in uid c.passwords) [
    | some stored ↦
        if same_password passwd stored
        then logged_in text_of uid pin c
        else (throws wrong_password, c)
    | none ↦
        logged_in text_of uid pin (record c { passwords = set_password uid passwd c.passwords })
  ]

  -- `fresh` is the pin that the account is opened with, and `pin` the one of the login
  unfoldable pub login : (ℕ → String) → ℕ → Option ℕ → ℕ → ℕ → Casino L → Outcome Login × Casino L
  unfolding casino_account
  login text_of uid passwd fresh pin c =
      checked_login text_of uid passwd pin (casino_account uid (text_of uid) none fresh c)

  unfoldable pub casino_sit :
      ℕ → ℕ → String → ℤ → Option ℤ → Casino L → Outcome (Unit {0}) × Casino L
  unfolding sit_at_table notify
  casino_sit id player name buy seat c =
      let looking : Casino L = record c { rooms = write_in player id c.rooms } in
      after_sit id looking (sit_at_table port id player name buy seat looking.server)

  unfoldable pub leave_seat : ℕ → ℕ → Casino L → Outcome ℕ × Casino L
  unfolding leave_table notify
  leave_seat id player c =
      let idle : Casino L = record c { ready = unready id player c.ready } in
      after_leave id idle (leave_table port id player idle.server)
