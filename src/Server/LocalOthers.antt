-- ===== src/Server/LocalOthers.antt =====
-- services/game-server/src/ledger-port.ts: an operation of the ledger in memory is for one player.
use Prim.Native.String.{String}
use vr_poker.Prelude.{
  ℕ, ◌≡◌, inl, inr, refl, false, Option, some, ◌==◌, Bool-cases, [], ◌∷◌, ◌++◌, ◌&&◌,
}
use vr_poker.Prelude.Int.{ℤ, pos, ◌+ℤ◌, ◌-ℤ◌}
use vr_poker.Ledger.Entries.{
  LedgerEntry, LedgerReason, Fallible, done, failed, After, buy_in, add_on, cash_out, seed,
}
use vr_poker.Ledger.Chips.{
  ChipLedger, append, balance, history, post_buy_in, post_add_on, post_cash_out, is_negative,
}
use vr_poker.Ledger.Balances.{append_balances}
use vr_poker.Ledger.Store.{is_empty_list}
use vr_poker.Server.LocalPort.{local_port, posted, open_account}
use vr_poker.Server.Others.{KeepsOthers}

posted-other :
    (now : String) (user other : ℕ) (amount : ℤ) (reason : LedgerReason) (ref : Option String)
    (l : ChipLedger)
    → (user == other) ≡ false
    → balance other (posted l (append now user (some amount) reason ref l)).1 ≡ balance other l
posted-other now user other amount reason ref l d =
    go (append now user (some amount) reason ref l)
      (append_balances now user other amount reason ref l d)
  where
    go :
        (r : Fallible (LedgerEntry × ChipLedger))
        → After
            (λ r.
              (r.1.entries ≡ l.entries ++ (r.0 ∷ []))
              × (balance user r.1 ≡ balance user l +ℤ amount)
              × (balance other r.1 ≡ balance other l)
              × ((is_negative amount && is_negative (balance user r.1)) ≡ false))
            r
        → balance other (posted l r).1 ≡ balance other l
    go (done r) h = h.2
    go (failed e) h = refl

opened-other :
    (now : String) (user other : ℕ) (name : Option String) (l : ChipLedger)
    → (user == other) ≡ false
    → balance other (open_account now user name l).1 ≡ balance other l
unfolding open_account
opened-other now user other name l d = elim (Bool-cases (is_empty_list (history user l))) [
  | inl y ↦ rw y (posted-other now user other (pos 100_000) seed _ l d)
  | inr n ↦ rw n refl
]

-- The port of a ledger in memory moves no balance but that of the player it is asked for.
pub local_port-KeepsOthers :
    (now : String) (text_of : ℕ → String) → KeepsOthers (local_port now text_of)
unfolding post_buy_in post_add_on post_cash_out
local_port-KeepsOthers now text_of = record {
  account_keeps = opened-other now;
  buy_in_keeps = λ player other table amount l d.
      posted-other now player other (pos 0 -ℤ amount) buy_in (some (text_of table)) l d;
  add_on_keeps = λ player other table amount l d.
      posted-other now player other (pos 0 -ℤ amount) add_on (some (text_of table)) l d;
  cash_out_keeps = λ player other table amount l d.
      posted-other now player other amount cash_out (some (text_of table)) l d;
}
