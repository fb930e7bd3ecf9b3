-- ===== src/Ledger.antt =====
-- packages/ledger/src: entries.ts, chip-ledger.ts and ownership-ledger.ts.
pub mod Entries
pub mod Chips
pub mod Balances
pub mod Ownership
pub mod Clubs
pub mod Roles
pub mod Store
mod Examples
pub mod Welcome
pub mod Debits
