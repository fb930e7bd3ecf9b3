-- ===== src/Ledger/Entries.antt =====
-- packages/ledger/src/entries.ts and errors.ts: the entries of the ledger and its errors.
-- The time of an entry is what the clock of the machine gives, an argument of the operations.
use Prim.Native.String.{String}
use vr_poker.Prelude.{◌≡◌, ◌⊎◌, inl, inr, refl, ℕ, Option}
use vr_poker.Prelude.Int.{ℤ}

pub data LedgerReason : Type 0 where
  seed buy_in add_on cash_out rake cosmetic_purchase tournament_buy_in tournament_prize :
      LedgerReason

pub record LedgerEntry : Type 0 where
  pub id : ℕ
  pub at : String
  pub user_id : ℕ
  pub amount : ℤ
  pub reason : LedgerReason
  pub ref : Option String

-- The messages of `LedgerError`; `ledger_error_not_bound` is the error of the engine that reads the
-- name `LedgerError` in a module that does not import it.
pub data LedgerError : Type 0 where
  not_a_non_zero_integer insufficient_chips seed_must_credit purchase_not_positive : LedgerError
  already_owns_cosmetic club_not_found rake_percent_out_of_range only_owner_may_delete : LedgerError
  cannot_add_owner already_member cannot_remove_owner member_not_found forbidden : LedgerError
  ledger_error_not_bound : LedgerError

pub data Fallible (A : Type 0) : Type 0 where
  done : A → Fallible A
  failed : LedgerError → Fallible A

pub Fallible-cases :
    {A : Type 0} (r : Fallible A) → ((e : LedgerError) × (r ≡ failed e)) ⊎ ((a : A) × (r ≡ done a))
Fallible-cases (done a) = inr (a, refl)
Fallible-cases (failed e) = inl (e, refl)

-- What holds of a call that returns.
abbrev pub After : {A : Type 0} → (A → Type 0) → Fallible A → Type 0
After P (done a) = P a
After P (failed e) = Unit
