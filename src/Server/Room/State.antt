-- ===== src/Server/Room/State.antt =====
-- services/game-server/src/ws.ts: the sockets of a room, and what is broadcast to them.
use Prim.Native.String.{String}
use vr_poker.Prelude.{
  ℕ, suc, Bool, not, Option, none, some, List, [], ◌∷◌, ◌++◌, ◌==◌, if◌then◌else◌, keep, some_of,
}
use vr_poker.Prelude.Int.{ℤ}
use vr_poker.Prelude.Maps.{lookup_in, write_in, erase_in}
use vr_poker.Table.State.{Table, PlayerAction}
use vr_poker.Table.Monad.{Error}
use vr_poker.Table.Snapshot.{TableSnapshot, snapshot}

pub record TableSocket : Type 0 where
  pub id : ℕ
  pub player_id : Option ℕ
  pub is_open : Bool

-- The text of an error: a `PokerError`'s, or one of the room.
pub data WsError : Type 0 where
  invalid_message player_id_required no_table sit_failed leave_failed start_failed action_failed :
      WsError
  poker : Error → WsError

-- `P` is the poses of a head and two hands.
pub record PresencePose (P : Type 0) : Type 0 where
  pub player_id : ℕ
  pub t : ℕ
  pub pose : P

pub data ServerMessage (P : Type 0) : Type 0 where
  welcome : ℕ → Option ℕ → ℕ → ServerMessage P
  state : ℕ → TableSnapshot → ServerMessage P
  presence : ℕ → ℕ → List (ℕ × PresencePose P) → ServerMessage P
  pong : ℕ → ServerMessage P
  left : ℕ → ℕ → ServerMessage P
  error : WsError → ServerMessage P

pub data ClientMessage (P : Type 0) : Type 0 where
  action : PlayerAction → ClientMessage P
  moves : P → ClientMessage P
  sits : String → ℤ → Option ℤ → ClientMessage P
  leaves starts ping : ClientMessage P

pub record TableRoom (P : Type 0) : Type 0 where
  pub table_id : ℕ
  pub seq : ℕ
  pub sockets : List TableSocket
  pub sockets_by_player : List (ℕ × List ℕ)
  pub poses : List (ℕ × PresencePose P)
  pub presence_last_at : List (ℕ × ℕ)
  pub sent : List (ℕ × ServerMessage P)

module _ {P : Type 0} where
  unfoldable pub send : TableSocket → ServerMessage P → TableRoom P → TableRoom P
  send s m r = record r { sent = r.sent ++ ((s.id, m) ∷ []) }

  -- a message for each socket that is open
  abbrev pub addressed :
      (TableSocket → ServerMessage P) → List TableSocket → List (ℕ × ServerMessage P)
  addressed f [] = []
  addressed f (s ∷ ss) = let rest = addressed f ss in if s.is_open then (s.id, f s) ∷ rest else rest

  -- `broadcastState`, of the table if there is one
  unfoldable pub broadcast_state : Option Table → TableRoom P → TableRoom P
  unfolding snapshot
  broadcast_state none r = r
  broadcast_state (some t) r =
      let next = suc r.seq in
      record r {
        seq = next;
        sent = r.sent ++ addressed (λ s. state next (snapshot s.player_id t)) r.sockets;
      }

  unfoldable pub broadcast_presence : ℕ → TableRoom P → TableRoom P
  broadcast_presence now r =
      let next = suc r.seq in
      record r { seq = next; sent = r.sent ++ addressed (λ s. presence next now r.poses) r.sockets }

  unfoldable pub send_presence : ℕ → TableSocket → TableRoom P → TableRoom P
  unfolding send
  send_presence now s r = if s.is_open then send s (presence r.seq now r.poses) r else r

  abbrev pub sockets_of : ℕ → TableRoom P → List ℕ
  sockets_of player r = elim (lookup_in player r.sockets_by_player) [ none ↦ [] | some ids ↦ ids ]

abbrev pub with_member : ℕ → List ℕ → List ℕ
with_member id ids = if some_of (λ i. i == id) ids then ids else ids ++ (id ∷ [])

abbrev pub without_member : ℕ → List ℕ → List ℕ
without_member id ids = keep (λ i. not (i == id)) ids

abbrev pub with_socket : TableSocket → List TableSocket → List TableSocket
with_socket s ss = if some_of (λ o. o.id == s.id) ss then ss else ss ++ (s ∷ [])

module _ {P : Type 0} where
  abbrev pub joined : TableSocket → TableRoom P → TableRoom P
  joined s r = elim s.player_id [
    | none ↦ record r { sockets = with_socket s r.sockets }
    | some player ↦ record r {
      sockets = with_socket s r.sockets;
      sockets_by_player =
          write_in player (with_member s.id (sockets_of player r)) r.sockets_by_player;
    }
  ]

  unfoldable pub add : ℕ → Option Table → TableSocket → TableRoom P → TableRoom P
  unfolding send broadcast_state send_presence
  add now table s r =
      let greeted = send s (welcome r.table_id s.player_id now) (joined s r) in
      send_presence now s (broadcast_state table greeted)

  -- the last socket of a player takes the player's pose with it
  abbrev pub parted : ℕ → ℕ → List ℕ → TableRoom P → TableRoom P
  parted now player [] r = broadcast_presence now (record r {
    sockets_by_player = erase_in player r.sockets_by_player;
    poses = erase_in player r.poses;
    presence_last_at = erase_in player r.presence_last_at;
  })
  parted now player (i ∷ is) r = record r {
    sockets_by_player = write_in player (i ∷ is) r.sockets_by_player;
  }

  unfoldable pub remove : ℕ → TableSocket → TableRoom P → TableRoom P
  unfolding broadcast_presence
  remove now s r =
      let gone : TableRoom P = record r { sockets = keep (λ o. not (o.id == s.id)) r.sockets } in
      elim s.player_id [
        | none ↦ gone
        | some player ↦ elim (lookup_in player r.sockets_by_player) [
          | none ↦ gone
          | some ids ↦ parted now player (without_member s.id ids) gone
        ]
      ]
