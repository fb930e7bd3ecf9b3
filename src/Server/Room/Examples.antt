-- ===== src/Server/Room/Examples.antt =====
-- Tests of services/game-server/src/ws.ts.
use vr_poker.Prelude.{ℕ, ◌+◌, ◌*◌, ◌≤◌, ◌≡◌, refl, List, [], ◌∷◌}
use vr_poker.Server.Room.State.{TableRoom, broadcast_presence}
use vr_poker.Server.Room.Handle.{last_at, take_pose}
use vr_poker.Server.Room.Presence.{take_poses, take_poses-paced}

abbrev room : TableRoom ℕ
room = record {
  table_id = 3;
  seq = 0;
  sockets = [];
  sockets_by_player = [];
  poses = [];
  presence_last_at = [];
  sent = [];
}

abbrev poses : List (ℕ × ℕ)
poses = (1000, 1) ∷ (1010, 2) ∷ (1034, 3) ∷ []

-- the second pose comes too soon
two_shown : (take_poses 7 poses room).seq ≡ 2
unfolding take_pose broadcast_presence
two_shown = refl

take_poses-paced_example :
    1000 * (take_poses 7 poses room).seq + 30 * last_at 7 room
    ≤ 1000 * room.seq + 30 * last_at 7 (take_poses 7 poses room)
take_poses-paced_example = take_poses-paced 7 poses room
