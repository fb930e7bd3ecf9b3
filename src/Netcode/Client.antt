-- ===== src/Netcode/Client.antt =====
-- packages/netcode/src/client.ts: `TableClient`, what it keeps of the messages it receives and what it
-- tells its owner. A message that does not parse is `none`. `now` is the clock, read once for a message.
-- The socket, its pings and its reconnections are platform code; they keep the fields that stand here.
use vr_poker.Prelude.{ℕ, Option, none, some, List, [], ◌∷◌, ◌++◌, ltb, ◌==◌, if◌then◌else◌}
use vr_poker.Prelude.Int.{ℤ, pos, ◌+ℤ◌, ◌-ℤ◌}
use vr_poker.Prelude.Maps.{lookup_in, write_in}
use vr_poker.Table.Snapshot.{TableSnapshot}
use vr_poker.Server.Room.State.{
  PresencePose, ServerMessage, WsError, welcome, state, presence, pong, left, error,
}
use vr_poker.Netcode.Pose.{PoseInterpolator, push, sample}

-- the calls of the handlers
pub data Notice (P : Type 0) : Type 0 where
  on_state : TableSnapshot → Notice P
  on_presence : ℕ → Option (PresencePose P) → Notice P
  on_error : WsError → Notice P

pub record TableClient (P : Type 0) : Type 0 where
  pub player_id : ℕ
  pub presence_delay_ms : ℕ
  pub seq : ℕ
  pub snapshot : Option TableSnapshot
  pub remote_poses : List (ℕ × PoseInterpolator P)
  pub server_time_offset_ms : ℤ
  pub notices : List (Notice P)

module _ {P : Type 0} where
  unfoldable pub server_now : ℕ → TableClient P → ℤ
  unfolding ◌+ℤ◌
  server_now now c = pos now +ℤ c.server_time_offset_ms

  unfoldable pub sync_server_time : ℕ → ℕ → TableClient P → TableClient P
  unfolding ◌-ℤ◌
  sync_server_time now server_time c = record c {
    server_time_offset_ms = pos server_time -ℤ pos now;
  }

  abbrev pub tell : Notice P → TableClient P → TableClient P
  tell n c = record c { notices = c.notices ++ (n ∷ []) }

  -- the buffer of a player, or a new one of 32 samples
  abbrev pub buffer_for : ℕ → TableClient P → PoseInterpolator P
  buffer_for player c = elim (lookup_in player c.remote_poses) [
    | some b ↦ b
    | none ↦ record { delay_ms = c.presence_delay_ms; max_samples = 32; samples = [] }
  ]

  -- a state that is not older than the one that is kept
  unfoldable pub take_state : ℕ → TableSnapshot → TableClient P → TableClient P
  take_state seq snap c =
      if ltb seq c.seq
      then c
      else tell (on_state snap) (record c { seq = seq; snapshot = some snap })

module _ {P : Type 0} (lerp : P → P → ℕ → ℕ → P) where
  -- the loop over the poses, at the time `at`
  abbrev pub take_poses : ℤ → List (ℕ × PresencePose P) → TableClient P → TableClient P
  take_poses at [] c = c
  take_poses at ((player, pose) ∷ poses) c =
      let buffer = push pose (buffer_for player c) in
      let heard =
        tell (on_presence player (sample lerp at buffer))
          (record c { remote_poses = write_in player buffer c.remote_poses }) in
      if player == c.player_id then take_poses at poses c else take_poses at poses heard

  unfoldable pub handle_message : ℕ → Option (ServerMessage P) → TableClient P → TableClient P
  unfolding server_now sync_server_time take_state push sample
  handle_message now none c = c
  handle_message now (some (welcome table player time)) c = sync_server_time now time c
  handle_message now (some (pong time)) c = sync_server_time now time c
  handle_message now (some (state seq snap)) c = take_state seq snap c
  handle_message now (some (presence seq time poses)) c =
      let synced = if time == 0 then c else sync_server_time now time c in
      take_poses (server_now now synced) poses synced
  handle_message now (some (left player chips)) c = c
  handle_message now (some (error e)) c = tell (on_error e) c

  -- the messages in the order of their arrival, with the time of each
  abbrev pub receive : List (ℕ × Option (ServerMessage P)) → TableClient P → TableClient P
  receive [] c = c
  receive ((now, m) ∷ ms) c = receive ms (handle_message now m c)

  -- `remotePose`
  unfoldable pub remote_pose : ℕ → ℤ → TableClient P → Option (PresencePose P)
  unfolding sample
  remote_pose player now c = elim (lookup_in player c.remote_poses) [
    | none ↦ none
    | some b ↦ sample lerp now b
  ]
