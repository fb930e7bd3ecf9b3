-- ===== src/Cosmetics.antt =====
-- packages/cosmetics/src: store.ts, catalog.ts and types.ts.
-- The store stands on the ledger in memory; ids are numbers, and the price of a cosmetic is a whole
-- number of chips.
pub mod Shop
pub mod Purchase
mod Examples
