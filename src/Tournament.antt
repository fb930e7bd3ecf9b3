-- ===== src/Tournament.antt =====
-- packages/tournament/src: payouts.ts, balance.ts, engine.ts and types.ts.
pub mod Payouts
pub mod Tables
pub mod Engine
pub mod Scheduler
pub mod Leaderboard
pub mod Service
pub mod Charges
mod Examples
