-- ===== src/Ledger/Debits.antt =====
-- packages/ledger/src/memory-store.ts: what `append` of the store does to a player's chips.
use Prim.Native.String.{String}
use mathlib.Core.Path.{subst}
use vr_poker.Prelude.{
  ℕ, suc, ◌≡◌, refl, false, Option, none, some, [], ◌∷◌, ◌++◌, arith, ◌==◌, ◌&&◌,
}
use vr_poker.Prelude.Int.{ℤ, ◌+ℤ◌}
use vr_poker.Ledger.Entries.{LedgerEntry, LedgerReason, Fallible, done, failed, After}
use vr_poker.Ledger.Chips.{ChipLedger, append, balance, is_negative}
use vr_poker.Ledger.Balances.{append_balances}
use vr_poker.Ledger.Store.{
  MemoryLedgerStore, UserAccount, Answer, ensure_user, store_append, with_chips, after_ensure,
}
use vr_poker.Ledger.Welcome.{IsCreated, ensured_keeps_chips}

not_next : (n : ℕ) → (n == suc n) ≡ false
not_next n = ground arith

-- An entry that is recorded has moved the balance by its amount; the chips stay where none is.
abbrev pub Debited : ℕ → ℤ → ChipLedger → Fallible LedgerEntry × MemoryLedgerStore → Type 0
Debited user amount l (done entry, m) = balance user m.chips ≡ balance user l +ℤ amount
Debited user amount l (failed e, m) = m.chips ≡ l

appended :
    (user : ℕ) (amount : ℤ) (m : MemoryLedgerStore) (r : Fallible (LedgerEntry × ChipLedger))
    → After
        (λ r.
          (r.1.entries ≡ m.chips.entries ++ (r.0 ∷ []))
          × (balance user r.1 ≡ balance user m.chips +ℤ amount)
          × (balance (suc user) r.1 ≡ balance (suc user) m.chips)
          × ((is_negative amount && is_negative (balance user r.1)) ≡ false))
        r
    → Debited user amount m.chips (with_chips m r)
appended user amount m (done r) h = h.1
appended user amount m (failed e) h = refl

pub store_append-Debited :
    (now : String) (user : ℕ) (amount : ℤ) (reason : LedgerReason) (ref : Option String)
    (m : MemoryLedgerStore)
    → IsCreated user m
    → Debited user amount m.chips (store_append now user (some amount) reason ref m)
unfolding store_append
store_append-Debited now user amount reason ref m created =
    go (ensure_user now user none m) (ensured_keeps_chips now user none m created)
  where
    go :
        (r : Answer UserAccount)
        → r.1.chips ≡ m.chips
        → Debited user amount m.chips
            (after_ensure (λ u. with_chips u (append now user (some amount) reason ref u.chips)) r)
    go (failed e, u) h = h
    go (done a, u) h =
        subst
          (λ l.
            Debited user amount l (with_chips u (append now user (some amount) reason ref u.chips)))
          h
          (appended user amount u (append now user (some amount) reason ref u.chips)
            (append_balances now user (suc user) amount reason ref u.chips (not_next user)))
