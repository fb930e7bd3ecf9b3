-- ===== src/Server/Room/Handle.antt =====
-- services/game-server/src/ws.ts: `handleMessage`. A message that does not parse is `none`.

use vr_poker.Prelude.{ℕ, ◌+◌, ◌*◌, Bool, true, false, Option, none, some, ltb, if◌then◌else◌}
use vr_poker.Prelude.Maps.{lookup_in, write_in, erase_in}
use vr_poker.Table.State.{Table}
use vr_poker.Table.Monad.{Error, Result, ok, err, bad_hand, null_access}
use vr_poker.Table.Play.{act}
use vr_poker.Table.Settle.{finalize_hand_if_complete}
use vr_poker.Server.Port.{ChipLedgerPort}
use vr_poker.Server.Ops.{
  Server, ServerError, Reply, answered, refused, of_table, of_ledger, table_not_found, put_table,
  sit_at_table, leave_table, start_table_hand, arm_timeout,
}
use vr_poker.Server.Room.State.{
  TableSocket, TableRoom, WsError, ClientMessage, invalid_message, player_id_required, no_table,
  sit_failed, leave_failed, start_failed, action_failed, poker, pong, left, error, action, moves,
  sits, leaves, starts, ping, send, broadcast_state, broadcast_presence,
}

-- the text of a `PokerError`, or the fallback
abbrev pub text_of : WsError → Error → WsError
text_of fallback bad_hand = fallback
text_of fallback null_access = fallback
text_of fallback e = poker e

abbrev pub message_of : WsError → ServerError → WsError
message_of fallback (of_table e) = text_of fallback e
message_of fallback (of_ledger e) = fallback
message_of fallback table_not_found = no_table

-- `now - last < 1000 / MAX_PRESENCE_HZ`
abbrev pub too_soon : ℕ → ℕ → Bool
too_soon now last = ltb (30 * now) (30 * last + 1000)

module _ {P : Type 0} where
  -- the last time at which a pose of the player was taken, or 0
  abbrev pub last_at : ℕ → TableRoom P → ℕ
  last_at player r = elim (lookup_in player r.presence_last_at) [ none ↦ 0 | some t ↦ t ]

  -- the message "presence" of a player
  unfoldable pub take_pose : ℕ → ℕ → P → TableRoom P → TableRoom P
  unfolding broadcast_presence
  take_pose now player pose r =
      if too_soon now (last_at player r)
      then r
      else broadcast_presence now (record r {
        presence_last_at = write_in player now r.presence_last_at;
        poses = write_in player (record { player_id = player; t = now; pose = pose }) r.poses;
      })

  abbrev pub without_pose : ℕ → TableRoom P → TableRoom P
  without_pose player r = record r {
    poses = erase_in player r.poses;
    presence_last_at = erase_in player r.presence_last_at;
  }

abbrev pub Both : Type 0 → Type 0 → Type 0
Both L P = TableRoom P × Server L

module _ {L P : Type 0} where
  -- `onBroadcast`: the room shows the table, and shows it again where a hand is then finished
  abbrev pub after_finalize : ℕ → TableRoom P → Server L → Result Bool × Table → Both L P
  after_finalize id r s (ok true, t) = (broadcast_state (some t) r, put_table id t s)
  after_finalize id r s (ok false, t) = (r, put_table id t s)
  after_finalize id r s (err e, t) = (r, put_table id t s)

  unfoldable pub on_broadcast : TableRoom P → Server L → Both L P
  unfolding broadcast_state finalize_hand_if_complete
  on_broadcast r s = elim (lookup_in r.table_id s.tables) [
    | none ↦ (r, s)
    | some t ↦
        after_finalize r.table_id (broadcast_state (some t) r) s (finalize_hand_if_complete t)
  ]

  abbrev pub after_sit : TableSocket → TableRoom P → Reply Table × Server L → Both L P
  after_sit client r (answered t, s) = on_broadcast r s
  after_sit client r (refused e, s) = (send client (error (message_of sit_failed e)) r, s)

  abbrev pub tell_left : TableSocket → ℕ → ℕ → Both L P → Both L P
  tell_left client player chips (r, s) = (send client (left player chips) r, s)

  abbrev pub after_leave : ℕ → TableSocket → ℕ → TableRoom P → Reply ℕ × Server L → Both L P
  after_leave now client player r (refused e, s) =
      (send client (error (message_of leave_failed e)) r, s)
  after_leave now client player r (answered chips, s) =
      tell_left client player chips
        (on_broadcast (broadcast_presence now (without_pose player r)) s)

  abbrev pub after_start : TableSocket → TableRoom P → Reply Table × Server L → Both L P
  after_start client r (answered t, s) = on_broadcast r s
  after_start client r (refused e, s) = (send client (error (message_of start_failed e)) r, s)

  abbrev pub after_act : TableSocket → TableRoom P → Server L → Result (Unit {0}) × Table → Both L P
  after_act client r s (err e, t) =
      (send client (error (text_of action_failed e)) r, put_table r.table_id t s)
  after_act client r s (ok a, t) =
      on_broadcast r (arm_timeout r.table_id t (put_table r.table_id t s))

  abbrev pub needs_player : TableSocket → TableRoom P → Server L → Both L P
  needs_player client r s = (send client (error player_id_required) r, s)

  unfoldable pub handle_message :
      ChipLedgerPort L
      → ℕ
      → TableSocket
      → Option (ClientMessage P)
      → TableRoom P
      → Server L
      → Both L P
  unfolding take_pose send on_broadcast broadcast_presence sit_at_table leave_table start_table_hand
      arm_timeout act
  handle_message port now client none r s = (send client (error invalid_message) r, s)
  handle_message port now client (some ping) r s = (send client (pong now) r, s)
  handle_message port now client (some (moves pose)) r s = elim client.player_id [
    | none ↦ (r, s)
    | some player ↦ (take_pose now player pose r, s)
  ]
  handle_message port now client (some (sits name buy_in seat)) r s = elim client.player_id [
    | none ↦ needs_player client r s
    | some player ↦ after_sit client r (sit_at_table port r.table_id player name buy_in seat s)
  ]
  handle_message port now client (some leaves) r s = elim client.player_id [
    | none ↦ needs_player client r s
    | some player ↦ after_leave now client player r (leave_table port r.table_id player s)
  ]
  handle_message port now client (some starts) r s =
      after_start client r (start_table_hand r.table_id s)
  handle_message port now client (some (action a)) r s = elim client.player_id [
    | none ↦ needs_player client r s
    | some player ↦ elim (lookup_in r.table_id s.tables) [
      | none ↦ (send client (error no_table) r, s)
      | some t ↦ after_act client r s (act player a t)
    ]
  ]
