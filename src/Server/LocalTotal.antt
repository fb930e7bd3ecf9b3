-- ===== src/Server/LocalTotal.antt =====
-- services/game-server/src/ledger-port.ts: the chips of all players in the ledger in memory.
use Prim.Native.String.{String}
use vr_poker.Prelude.{ℕ, ◌≡◌, refl, Option, some, ◌&&◌}
use vr_poker.Prelude.Int.{ℤ, pos, ◌+ℤ◌, ◌-ℤ◌}
use vr_poker.Ledger.Entries.{
  LedgerEntry, LedgerReason, Fallible, done, failed, After, buy_in, add_on, cash_out,
}
use vr_poker.Ledger.Chips.{
  ChipLedger, total_from, append, balance, pushed, is_zero, is_negative, is_seed, post_buy_in,
  post_add_on, post_cash_out,
}
use vr_poker.Ledger.Balances.{guarded, total-snoc}
use vr_poker.Server.Port.{Posts}
use vr_poker.Server.LocalPort.{posted, local_port}
use vr_poker.Server.Flight.{IsTotal}

abbrev pub total_of : ChipLedger → ℤ
total_of l = total_from (pos 0) l.entries

posted_total :
    (amount : ℤ) (l : ChipLedger) (r : Fallible (LedgerEntry × ChipLedger))
    → After (λ r. total_of r.1 ≡ total_of l +ℤ amount) r
    → Posts total_of l amount (posted l r)
posted_total amount l (done r) h = h
posted_total amount l (failed e) h = refl

append_total :
    (now : String) (user : ℕ) (amount : ℤ) (reason : LedgerReason) (ref : Option String)
    (l : ChipLedger)
    → Posts total_of l amount (posted l (append now user (some amount) reason ref l))
unfolding append
append_total now user amount reason ref l =
    let r = pushed now user amount reason ref l in
    posted_total amount l _ (
      guarded (λ r. total_of r.1 ≡ total_of l +ℤ amount) (is_zero amount)
        (is_negative amount && is_negative (balance user l +ℤ amount))
        (is_seed reason && is_negative amount) r (λ fine. total-snoc (pos 0) l.entries r.0))

pub local_port-IsTotal :
    (now : String) (text_of : ℕ → String) → IsTotal (local_port now text_of) total_of
unfolding post_buy_in post_add_on post_cash_out
local_port-IsTotal now text_of = record {
  buy_in_total = λ player table amount l.
      append_total now player (pos 0 -ℤ amount) buy_in (some (text_of table)) l;
  add_on_total = λ player table amount l.
      append_total now player (pos 0 -ℤ amount) add_on (some (text_of table)) l;
  cash_out_total =
      λ player table amount l. append_total now player amount cash_out (some (text_of table)) l;
}
