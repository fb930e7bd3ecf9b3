-- ===== src/Server/Room.antt =====
-- services/game-server/src/ws.ts: `TableRoom`, and the messages of packages/netcode/src/protocol.ts.
-- A message that is sent is kept with the socket it is for, in the order of sending. `now` is the
-- clock in milliseconds, one reading for a call. The rooms of a server have the table's operations.
pub mod State
pub mod Handle
pub mod Presence
mod Examples
