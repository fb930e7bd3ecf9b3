-- ===== src/Ledger/Chips.antt =====
-- packages/ledger/src/chip-ledger.ts: the append-only ledger of chips.
use Prim.Native.String.{String}
use vr_poker.Prelude.{
  ℕ, suc, Bool, true, false, Option, none, some, List, [], ◌∷◌, ◌++◌, if◌then◌else◌, ◌==◌, keep,
  ◌&&◌,
}
use vr_poker.Prelude.Int.{ℤ, pos, negsuc, ◌+ℤ◌, ◌-ℤ◌, ltb_ℤ, leb_ℤ}
use vr_poker.Ledger.Entries.{
  LedgerEntry, LedgerReason, Fallible, done, failed, seed, buy_in, add_on, cash_out,
  cosmetic_purchase, tournament_buy_in, tournament_prize, not_a_non_zero_integer,
  insufficient_chips, seed_must_credit, purchase_not_positive,
}

pub record ChipLedger : Type 0 where
  pub entries : List LedgerEntry
  pub next_id : ℕ

abbrev pub empty_ledger : ChipLedger
empty_ledger = record { entries = []; next_id = 1 }

abbrev pub is_of : ℕ → LedgerEntry → Bool
is_of user e = e.user_id == user

-- `reduce((s, e) => s + e.amount, s)`
abbrev pub total_from : ℤ → List LedgerEntry → ℤ
total_from s [] = s
total_from s (e ∷ es) = total_from (s +ℤ e.amount) es

unfoldable pub history : ℕ → ChipLedger → List LedgerEntry
history user l = keep (is_of user) l.entries

unfoldable pub balance : ℕ → ChipLedger → ℤ
balance user l = total_from (pos 0) (keep (is_of user) l.entries)

abbrev pub is_zero : ℤ → Bool
is_zero (pos n) = n == 0
is_zero (negsuc n) = false

abbrev pub is_negative : ℤ → Bool
is_negative a = ltb_ℤ a (pos 0)

abbrev pub is_seed : LedgerReason → Bool
is_seed seed = true
is_seed _ = false

-- An amount, where `none` stands for a number that is not an integer.
abbrev pub Amount : Type 0
Amount = Option ℤ

abbrev pub negated : Amount → Amount
negated none = none
negated (some a) = some (pos 0 -ℤ a)

-- the entry that is pushed
abbrev pub pushed :
    String → ℕ → ℤ → LedgerReason → Option String → ChipLedger → LedgerEntry × ChipLedger
pushed now user amount reason ref l =
    let entry : LedgerEntry = record {
      id = l.next_id;
      at = now;
      user_id = user;
      amount = amount;
      reason = reason;
      ref = ref;
    } in
    (entry, record { entries = l.entries ++ (entry ∷ []); next_id = suc l.next_id })

unfoldable pub append :
    String
    → ℕ
    → Amount
    → LedgerReason
    → Option String
    → ChipLedger
    → Fallible (LedgerEntry × ChipLedger)
unfolding balance
append now user none reason ref l = failed not_a_non_zero_integer
append now user (some amount) reason ref l =
    if is_zero amount
    then failed not_a_non_zero_integer
    else if is_negative amount && is_negative (balance user l +ℤ amount)
    then failed insufficient_chips
    else if is_seed reason && is_negative amount
    then failed seed_must_credit
    else done (pushed now user amount reason ref l)

module _ (now : String) (user : ℕ) (amount : Amount) (ref : String) (l : ChipLedger) where
  unfoldable pub post_buy_in : Fallible (LedgerEntry × ChipLedger)
  unfolding append
  post_buy_in = append now user (negated amount) buy_in (some ref) l

  unfoldable pub post_add_on : Fallible (LedgerEntry × ChipLedger)
  unfolding append
  post_add_on = append now user (negated amount) add_on (some ref) l

  unfoldable pub post_cash_out : Fallible (LedgerEntry × ChipLedger)
  unfolding append
  post_cash_out = append now user amount cash_out (some ref) l

  unfoldable pub post_tournament_buy_in : Fallible (LedgerEntry × ChipLedger)
  unfolding append
  post_tournament_buy_in = append now user (negated amount) tournament_buy_in (some ref) l

  unfoldable pub post_tournament_prize : Fallible (LedgerEntry × ChipLedger)
  unfolding append
  post_tournament_prize = append now user amount tournament_prize (some ref) l

-- `amount <= 0` is false of what is not a number, and of a fraction that is positive.
abbrev pub not_positive : Amount → Bool
not_positive none = false
not_positive (some a) = leb_ℤ a (pos 0)

unfoldable pub post_cosmetic_purchase :
    String → ℕ → Amount → String → ChipLedger → Fallible (LedgerEntry × ChipLedger)
unfolding append
post_cosmetic_purchase now user amount sku l =
    if not_positive amount
    then failed purchase_not_positive
    else append now user (negated amount) cosmetic_purchase (some sku) l
