-- ===== src/Server.antt =====
-- services/game-server/src: what the server does with the tables and the ledger.
pub mod Port
pub mod LocalPort
pub mod Ops
pub mod Balance
pub mod Interleaved
pub mod Flight
pub mod LocalTotal
pub mod Others
pub mod LocalOthers
pub mod Casino
pub mod Http
pub mod Room
mod Examples
