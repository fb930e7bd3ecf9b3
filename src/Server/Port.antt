-- ===== src/Server/Port.antt =====
-- services/game-server/src/ledger-port.ts: `ChipLedgerPort`, what the server needs of a ledger.
-- The operations work on the state `L` of a ledger; a promise is its result, or what it rejects with,
-- as each can where the ledger is remote. Asking for a balance or a history changes nothing.
-- `holds` is no operation: it is the balance that the ledger has for a player, whether it tells it or
-- not.
use Prim.Native.String.{String}
use vr_poker.Prelude.{ℕ, ◌<◌, ◌≡◌, Option, List}
use vr_poker.Prelude.Int.{ℤ, ◌+ℤ◌, ◌-ℤ◌, pos}
use vr_poker.Ledger.Entries.{LedgerEntry, Fallible, done, failed}

pub record ChipLedgerPort (L : Type 0) : Type 0 where
  pub balance : ℕ → L → Fallible ℤ
  pub history : ℕ → L → Fallible (List LedgerEntry)
  pub ensure_account : ℕ → Option String → L → Fallible (Unit {0}) × L
  pub buy_in : ℕ → ℤ → ℕ → L → Fallible (Unit {0}) × L
  pub add_on : ℕ → ℤ → ℕ → L → Fallible (Unit {0}) × L
  pub cash_out : ℕ → ℤ → ℕ → L → Fallible (Unit {0}) × L
  pub holds : ℕ → L → ℤ

-- A call that returns has added `amount` to the balance, and one that fails has changed nothing.
abbrev pub Posts : {L : Type 0} → (L → ℤ) → L → ℤ → Fallible (Unit {0}) × L → Type 0
Posts bal l amount (done a, l') = bal l' ≡ bal l +ℤ amount
Posts bal l amount (failed e, l') = l' ≡ l

-- What the server relies on, where no balance of the ledger is negative.
pub record IsPort {L : Type 0} (p : ChipLedgerPort L) (IsSound : L → Type 0) : Type 0 where
  -- a balance that is told is the one that the ledger has
  pub balance_tells :
      (player : ℕ) (coins : ℤ) (l : L) → p.balance player l ≡ done coins → p.holds player l ≡ coins
  pub buy_in_posts :
      (player table : ℕ) (amount : ℤ) (l : L)
      → Posts (p.holds player) l (pos 0 -ℤ amount) (p.buy_in player amount table l)
  pub add_on_posts :
      (player table : ℕ) (amount : ℤ) (l : L)
      → Posts (p.holds player) l (pos 0 -ℤ amount) (p.add_on player amount table l)
  pub cash_out_posts :
      (player table : ℕ) (amount : ℤ) (l : L)
      → Posts (p.holds player) l amount (p.cash_out player amount table l)
  -- chips are always taken back
  pub credits :
      (player table chips : ℕ) (l : L)
      → 0 < chips
      → (p.cash_out player (pos chips) table l).0 ≡ done tt
  pub opens :
      (player : ℕ) (name : Option String) (l : L)
      → IsSound l
      → IsSound (p.ensure_account player name l).1
  -- what was bought in for can be cashed out again
  pub refunds :
      (player table : ℕ) (amount : ℤ) (l l' : L)
      → IsSound l
      → p.buy_in player amount table l ≡ (done tt, l')
      → (p.cash_out player amount table l').0 ≡ done tt
  pub refunds_add_on :
      (player table : ℕ) (amount : ℤ) (l l' : L)
      → IsSound l
      → p.add_on player amount table l ≡ (done tt, l')
      → (p.cash_out player amount table l').0 ≡ done tt
