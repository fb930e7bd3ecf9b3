-- ===== src/Table.antt =====
-- packages/core/src/table.ts and types.ts: the hold'em table.
pub mod State
pub mod Monad
pub mod Seats
pub mod Legal
pub mod Betting
pub mod Settle
pub mod Streets
pub mod Play
pub mod Chips
pub mod Wager
pub mod Credit
pub mod Payout
pub mod Showdown
pub mod Accounts
pub mod Bank
pub mod Shape
pub mod Snapshot
pub mod Fuel
pub mod Rounds
pub mod Closing
pub mod Termination
pub mod Scenes
mod Examples
