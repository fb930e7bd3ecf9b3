-- ===== src/Ledger/Balances.antt =====
-- packages/ledger/src/chip-ledger.ts: what an entry does to the balances.
use Prim.Native.String.{String}
use vr_poker.Prelude.{
  ℕ, ◌≡◌, refl, Bool, true, false, Option, some, List, [], ◌∷◌, ◌++◌, arith, if◌then◌else◌, ◌==◌,
  keep, ◌&&◌, Bool-cases, inl, inr, ap,
}
use vr_poker.Prelude.Int.{ℤ, pos, ◌+ℤ◌, +ℤ_parts}
use vr_poker.Ledger.Entries.{
  LedgerEntry, LedgerReason, done, failed, After, not_a_non_zero_integer, insufficient_chips,
  seed_must_credit,
}
use vr_poker.Ledger.Chips.{
  ChipLedger, is_of, total_from, balance, append, pushed, is_zero, is_negative, is_seed,
}

-- What the entries of a player add up to.
abbrev sum_for : ℕ → List LedgerEntry → ℤ
sum_for user es = total_from (pos 0) (keep (is_of user) es)

keep-append :
    (user : ℕ) (xs ys : List LedgerEntry)
    → keep (is_of user) (xs ++ ys) ≡ keep (is_of user) xs ++ keep (is_of user) ys
keep-append user [] ys = refl
keep-append user (x ∷ xs) ys = ground (arith, keep-append user xs ys)

pub total-snoc :
    (s : ℤ) (es : List LedgerEntry) (e : LedgerEntry)
    → total_from s (es ++ (e ∷ [])) ≡ total_from s es +ℤ e.amount
total-snoc s [] e = refl
total-snoc s (x ∷ es) e = total-snoc (s +ℤ x.amount) es e

append_nil : (xs : List LedgerEntry) → xs ++ [] ≡ xs
append_nil [] = refl
append_nil (x ∷ xs) = ap (λ l. x ∷ l) (append_nil xs)

sum_for-own :
    (user : ℕ) (es : List LedgerEntry) (e : LedgerEntry)
    → is_of user e ≡ true
    → sum_for user (es ++ (e ∷ [])) ≡ sum_for user es +ℤ e.amount
sum_for-own user es e y =
    rw (keep-append user es (e ∷ []), y) (total-snoc (pos 0) (keep (is_of user) es) e)

sum_for-other :
    (user : ℕ) (es : List LedgerEntry) (e : LedgerEntry)
    → is_of user e ≡ false
    → sum_for user (es ++ (e ∷ [])) ≡ sum_for user es
sum_for-other user es e n =
    rw (keep-append user es (e ∷ []), n, append_nil (keep (is_of user) es)) refl

-- The entry is recorded past the three guards of `append`.
pub guarded :
    (P : LedgerEntry × ChipLedger → Type 0) (zero_amount broke bad_seed : Bool)
    (r : LedgerEntry × ChipLedger)
    → (broke ≡ false → P r)
    → After P (
        if zero_amount
        then failed not_a_non_zero_integer
        else if broke
        then failed insufficient_chips
        else if bad_seed
        then failed seed_must_credit
        else done r)
guarded P true broke bad_seed r h = tt
guarded P false true bad_seed r h = tt
guarded P false false true r h = tt
guarded P false false false r h = h refl

self_equal : (n : ℕ) → (n == n) ≡ true
self_equal n = ground arith

still_solvent :
    (b a : ℤ)
    → is_negative b ≡ false
    → (is_negative a && is_negative (b +ℤ a)) ≡ false
    → is_negative (b +ℤ a) ≡ false
still_solvent b a h g = elim (Bool-cases (is_negative a)) [
  | inl y ↦ rw y at g
  | inr n ↦ ground (arith, +ℤ_parts b a)
]

-- An entry that is recorded stands last and changes the balance of its own player, by its amount,
-- and no other; and a debit leaves that balance at zero or more.
pub append_balances :
    (now : String) (user other : ℕ) (amount : ℤ) (reason : LedgerReason) (ref : Option String)
    (l : ChipLedger)
    → (user == other) ≡ false
    → After
        (λ r.
          (r.1.entries ≡ l.entries ++ (r.0 ∷ []))
          × (balance user r.1 ≡ balance user l +ℤ amount)
          × (balance other r.1 ≡ balance other l)
          × ((is_negative amount && is_negative (balance user r.1)) ≡ false))
        (append now user (some amount) reason ref l)
unfolding append balance
append_balances now user other amount reason ref l d =
    let r = pushed now user amount reason ref l in
    let own = sum_for-own user l.entries r.0 (self_equal user) in
    guarded
      (λ r.
        (r.1.entries ≡ l.entries ++ (r.0 ∷ []))
        × (balance user r.1 ≡ balance user l +ℤ amount)
        × (balance other r.1 ≡ balance other l)
        × ((is_negative amount && is_negative (balance user r.1)) ≡ false))
      (is_zero amount) (is_negative amount && is_negative (balance user l +ℤ amount))
      (is_seed reason && is_negative amount) r
      (λ fine. (refl, own, sum_for-other other l.entries r.0 d, rw own fine))

-- No player owes chips.
abbrev pub IsSolvent : ChipLedger → Type 0
IsSolvent l = (user : ℕ) → is_negative (balance user l) ≡ false

-- Recording an entry keeps every balance at zero or more.
pub append-IsSolvent :
    (now : String) (user : ℕ) (amount : ℤ) (reason : LedgerReason) (ref : Option String)
    (l : ChipLedger)
    → IsSolvent l
    → After (λ r. IsSolvent r.1) (append now user (some amount) reason ref l)
unfolding append balance
append-IsSolvent now user amount reason ref l s =
    let r = pushed now user amount reason ref l in
    guarded (λ r. IsSolvent r.1) (is_zero amount)
      (is_negative amount && is_negative (balance user l +ℤ amount))
      (is_seed reason && is_negative amount) r
      (λ fine other. elim (Bool-cases (user == other)) [
        | inl y ↦
            let same : user ≡ other = ground arith in
            rw (sum_for-own other l.entries r.0 y)
              (still_solvent (balance other l) amount (s other) (rw same at fine))
        | inr n ↦ rw (sum_for-other other l.entries r.0 n) (s other)
      ])
