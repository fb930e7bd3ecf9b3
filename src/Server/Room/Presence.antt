-- ===== src/Server/Room/Presence.antt =====
-- services/game-server/src/ws.ts: how often the poses of a player are shown.
use vr_poker.Prelude.{
  ℕ, ◌+◌, ◌*◌, ◌≤◌, ◌≡◌, inl, inr, ap, Option, none, some, List, [], ◌∷◌, arith, Bool-cases,
}
use vr_poker.Prelude.Maps.{write_in, lookup_in-write_in}
use vr_poker.Server.Room.State.{TableRoom, broadcast_presence}
use vr_poker.Server.Room.Handle.{last_at, too_soon, take_pose}

module _ {P : Type 0} (player : ℕ) where
  -- The poses of a player arrive one after another, each with its time.
  abbrev pub take_poses : List (ℕ × P) → TableRoom P → TableRoom P
  take_poses [] r = r
  take_poses ((now, pose) ∷ ps) r = take_poses ps (take_pose now player pose r)

  -- the room after a pose that is taken
  abbrev shown : ℕ → P → TableRoom P → TableRoom P
  shown now pose r = broadcast_presence now (record r {
    presence_last_at = write_in player now r.presence_last_at;
    poses = write_in player (record { player_id = player; t = now; pose = pose }) r.poses;
  })

  shown-last : (now : ℕ) (pose : P) (r : TableRoom P) → last_at player (shown now pose r) ≡ now
  unfolding broadcast_presence
  shown-last now pose r = ap last_of (lookup_in-write_in player now r.presence_last_at)
    where
      last_of : Option ℕ → ℕ
      last_of o = elim o [ none ↦ 0 | some t ↦ t ]

  paced :
      (now : ℕ) (pose : P) (r : TableRoom P)
      → 1000 * (take_pose now player pose r).seq + 30 * last_at player r
        ≤ 1000 * r.seq + 30 * last_at player (take_pose now player pose r)
  unfolding take_pose broadcast_presence
  paced now pose r = elim (Bool-cases (too_soon now (last_at player r))) [
    | inl y ↦ rw y (omega arith)
    | inr n ↦ rw n (ground (arith, n, shown-last now pose r))
  ]

  -- Of poses that a player sends one after another, at whatever times, with no other message of the
  -- room between them and no socket that closes, the room shows at most thirty in a second: each
  -- broadcast needs a thirtieth of a second since the last pose that was taken.
  pub take_poses-paced :
      (ps : List (ℕ × P)) (r : TableRoom P)
      → 1000 * (take_poses ps r).seq + 30 * last_at player r
        ≤ 1000 * r.seq + 30 * last_at player (take_poses ps r)
  take_poses-paced [] r = omega arith
  take_poses-paced ((now, pose) ∷ ps) r =
      omega (arith, paced now pose r, take_poses-paced ps (take_pose now player pose r))
