-- ===== src/Server/Casino.antt =====
-- services/game-server/src/casino: map.ts and runtime.ts.
pub mod Map
pub mod Offered
pub mod Runtime
pub mod Sessions
pub mod Rpc
pub mod Calls
pub mod Dispatch
pub mod Access
pub mod Gateway
pub mod Kept
pub mod Own
pub mod Balances
mod Examples
