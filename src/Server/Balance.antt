-- ===== src/Server/Balance.antt =====
-- services/game-server/src/table-ops.ts and the add-on of app.ts: chips between ledger and tables.
use Prim.Native.String.{String, len}
use vr_poker.Prelude.{
  ℕ, ◌+◌, ◌≡◌, inl, inr, refl, ap, ◌∙◌, Option, some, List, arith, ◌==◌, ltb, Bool-cases,
  Option-cases,
}
use vr_poker.Prelude.Sums.{sum_of}
use vr_poker.Prelude.Maps.{lookup_in, write_in, sum_of-write_in}
use vr_poker.Prelude.Int.{ℤ, pos, pos_part, neg_part, ◌+ℤ◌, ◌-ℤ◌, int_laws}
use vr_poker.Ledger.Entries.{Fallible, done, failed}
use vr_poker.Table.State.{Table}
use vr_poker.Table.Monad.{Error, Result, ok, err}
use vr_poker.Table.Credit.{stacks}
use vr_poker.Table.Play.{sit, add_on, cash_out}
use vr_poker.Table.Bank.{Sized, Brought, Paid, sit-Brought, add_on-Brought, cash_out-Paid}
use vr_poker.Server.Port.{ChipLedgerPort, IsPort, Posts}
use vr_poker.Server.Ops.{
  Server, put_ledger, put_table, ensure_account, give_back, or_refund, after_debit, after_ensure,
  sit_at_table, add_on_at_table, after_credit, after_cash_out, leave_table,
}

-- The chips in the stacks of all tables.
abbrev pub on_tables : List (ℕ × Table) → ℕ
on_tables m = sum_of (λ e. stacks e.1) m

pub same_chips :
    (id : ℕ) (t u : Table) (m : List (ℕ × Table))
    → lookup_in id m ≡ some t
    → stacks u ≡ stacks t
    → on_tables (write_in id u m) ≡ on_tables m
same_chips id t u m e h = omega (arith, sum_of-write_in stacks id u m e, h)

moved_over :
    (b c buy : ℤ) (m n : ℕ)
    → c ≡ b +ℤ (pos 0 -ℤ buy)
    → n ≡ m + pos_part buy
    → neg_part buy ≡ 0
    → c +ℤ pos n ≡ b +ℤ pos m
moved_over b c buy m n h k w = grind (int_laws, h, k, w)

brought_back : (b c d buy : ℤ) → c ≡ b +ℤ (pos 0 -ℤ buy) → d ≡ c +ℤ buy → d ≡ b
brought_back b c d buy h k = grind (int_laws, h, k)

paid_out : (b c : ℤ) (m n chips : ℕ) → c ≡ b +ℤ pos chips → n + chips ≡ m → c +ℤ pos n ≡ b +ℤ pos m
paid_out b c m n chips h k = grind (int_laws, h, k)

-- What the ledger owes the player, and what stands on the tables.
abbrev pub worth : {L : Type 0} → ChipLedgerPort L → ℕ → Server L → ℤ
worth port player s = port.holds player s.ledger +ℤ pos (on_tables s.tables)

module _ {L : Type 0} {IsSound : L → Type 0} (port : ChipLedgerPort L) (laws : IsPort port IsSound)
    (player : ℕ) where
  -- The compensation of a debit that was recorded brings all of it back.
  gave_back :
      (e : Error) (b amount : ℤ) (s : Server L) (r : Fallible (Unit {0}) × L)
      → port.holds player s.ledger ≡ b +ℤ (pos 0 -ℤ amount)
      → Posts (port.holds player) s.ledger amount r
      → r.0 ≡ done tt
      → worth port player (give_back e s r).1 ≡ b +ℤ pos (on_tables s.tables)
  gave_back e b amount s (done a, l) h k d =
      ap (λ v. v +ℤ pos (on_tables s.tables))
        (brought_back b (port.holds player s.ledger) (port.holds player l) amount h k)
  gave_back e b amount s (failed x, l) h k d = absurd cc

  module _ (id : ℕ) (t : Table) (s : Server L) (amount : ℤ)
      (at : lookup_in id s.tables ≡ some t) where
    -- After a debit of the ledger that its compensation can give back.
    settled :
        {A : Type 0} (l : L) (brought : Result A × Table)
        → port.holds player l ≡ port.holds player s.ledger +ℤ (pos 0 -ℤ amount)
        → (port.cash_out player amount id l).0 ≡ done tt
        → Brought (stacks t) amount brought
        → worth port player (or_refund port id player amount (put_ledger l s) brought).1
          ≡ worth port player s
    settled l (ok a, u) h back b =
        moved_over (port.holds player s.ledger) (port.holds player l) amount (on_tables s.tables)
          (on_tables (write_in id u s.tables)) h
          (omega (arith, sum_of-write_in stacks id u s.tables at, b.0)) b.1
    settled l (err e, u) h back b =
        gave_back e (port.holds player s.ledger) amount (put_table id u (put_ledger l s))
          (port.cash_out player amount id l) h (laws.cash_out_posts player id amount l) back
        ∙ ap (λ n. port.holds player s.ledger +ℤ pos n) (same_chips id t u s.tables at b)

    debited :
        {A : Type 0} (brought : Result A × Table) (r : Fallible (Unit {0}) × L)
        → Posts (port.holds player) s.ledger (pos 0 -ℤ amount) r
        → ((l : L) → r ≡ (done tt, l) → (port.cash_out player amount id l).0 ≡ done tt)
        → Brought (stacks t) amount brought
        → worth port player (after_debit port id player amount brought s r).1 ≡ worth port player s
    debited brought (done a, l) h back b = settled l brought h (back l refl) b
    debited brought (failed x, l) h back b =
        ap (λ l. port.holds player l +ℤ pos (on_tables s.tables)) h

  add_on_at_table-worth :
      (id : ℕ) (amount : ℤ) (s : Server L)
      → IsSound s.ledger
      → worth port player (add_on_at_table port id player amount s).1 ≡ worth port player s
  unfolding add_on_at_table
  add_on_at_table-worth id amount s sound = elim (Option-cases (lookup_in id s.tables)) [
    | inl e ↦ rw (add_on_at_table, e) refl
    | inr (t, e) ↦
        rw (add_on_at_table, e)
          (debited id t s amount e (add_on player amount t) (port.add_on player amount id s.ledger)
            (laws.add_on_posts player id amount s.ledger)
            (λ l d. laws.refunds_add_on player id amount s.ledger l sound d)
            (add_on-Brought player amount t))
  ]

  seated :
      (id : ℕ) (name : String) (buy : ℤ) (seat : Option ℤ) (t : Table)
      (r : Fallible (Unit {0}) × Server L)
      → IsSound r.1.ledger
      → lookup_in id r.1.tables ≡ some t
      → Sized t
      → worth port player (after_ensure port id player name buy seat t r).1 ≡ worth port player r.1
  seated id name buy seat t (failed x, s) sound e z = refl
  seated id name buy seat t (done a, s) sound e z =
      debited id t s buy e (sit player name buy seat t) (port.buy_in player buy id s.ledger)
        (laws.buy_in_posts player id buy s.ledger)
        (λ l d. laws.refunds player id buy s.ledger l sound d)
        (sit-Brought player name buy seat t z)

  ensured :
      (name : String) (s : Server L)
      → IsSound s.ledger
      → IsSound (ensure_account port player name s).1.ledger
        × ((ensure_account port player name s).1.tables ≡ s.tables)
  unfolding ensure_account
  ensured name s sound = elim (Bool-cases (len name == 0)) [
    | inl y ↦ rw y (laws.opens player (some name) s.ledger sound, refl)
    | inr n ↦ rw n (laws.opens player (some name) s.ledger sound, refl)
  ]

  sit_at_table-worth :
      (id : ℕ) (name : String) (buy : ℤ) (seat : Option ℤ) (s : Server L) (t : Table)
      → IsSound s.ledger
      → lookup_in id s.tables ≡ some t
      → Sized t
      → worth port player (sit_at_table port id player name buy seat s).1
        ≡ worth port player (ensure_account port player name s).1
  unfolding sit_at_table
  sit_at_table-worth id name buy seat s t sound e z =
      let (kept, same) = ensured name s sound in
      rw (sit_at_table, e)
        (seated id name buy seat t (ensure_account port player name s) kept
          (ap (λ m. lookup_in id m) same ∙ e) z)

  credited :
      (chips n : ℕ) (s : Server L) (r : Fallible (Unit {0}) × L)
      → Posts (port.holds player) s.ledger (pos chips) r
      → r.0 ≡ done tt
      → on_tables s.tables + chips ≡ n
      → worth port player (after_credit chips s r).1 ≡ port.holds player s.ledger +ℤ pos n
  credited chips n s (done a, l) h d k =
      paid_out (port.holds player s.ledger) (port.holds player l) n (on_tables s.tables) chips h k
  credited chips n s (failed x, l) h d k = absurd cc

  left_table :
      (id : ℕ) (s : Server L) (t : Table) (r : Result ℕ × Table)
      → lookup_in id s.tables ≡ some t
      → Paid (stacks t) r
      → worth port player (after_cash_out port id player s r).1 ≡ worth port player s
  left_table id s t (err e, u) at p =
      ap (λ n. port.holds player s.ledger +ℤ pos n) (same_chips id t u s.tables at p)
  left_table id s t (ok chips, u) at p =
      let left = put_table id u s in
      let taken : on_tables left.tables + chips ≡ on_tables s.tables =
        omega (arith, sum_of-write_in stacks id u s.tables at, p) in
      elim (Bool-cases (ltb 0 chips)) [
        | inl y ↦ rw y (
            credited chips (on_tables s.tables) left (port.cash_out player (pos chips) id s.ledger)
              (laws.cash_out_posts player id (pos chips) s.ledger)
              (laws.credits player id chips s.ledger (ground (arith, y))) taken)
        | inr n ↦
            let none_left : chips ≡ 0 = ground (arith, n) in
            rw n (ap (λ n. port.holds player s.ledger +ℤ pos n) (omega (arith, taken, none_left)))
      ]

  leave_table-worth :
      (id : ℕ) (s : Server L)
      → worth port player (leave_table port id player s).1 ≡ worth port player s
  unfolding leave_table
  leave_table-worth id s = elim (Option-cases (lookup_in id s.tables)) [
    | inl e ↦ rw (leave_table, e) refl
    | inr (t, e) ↦
        rw (leave_table, e) (left_table id s t (cash_out player t) e (cash_out-Paid player t))
  ]

  -- Over a ledger that is sound and keeps the laws of a port, so that it never fails to take chips
  -- back, as the one in memory, and for a table that has a seat for each that its rules name: a call of
  -- sit, of add-on and of leave, whose numbers are whole, neither lose nor make chips of the player,
  -- whether they are answered, refused by the ledger, or refused by the table after the ledger was
  -- debited. What the ledger owes the player and what stands on all tables add up to what they did
  -- before, for sit to what they did when the player's account was open.
  pub requests-worth :
      (id : ℕ) (name : String) (buy amount : ℤ) (seat : Option ℤ) (s : Server L) (t : Table)
      → IsSound s.ledger
      → lookup_in id s.tables ≡ some t
      → Sized t
      → (worth port player (sit_at_table port id player name buy seat s).1
          ≡ worth port player (ensure_account port player name s).1)
        × (worth port player (add_on_at_table port id player amount s).1 ≡ worth port player s)
        × (worth port player (leave_table port id player s).1 ≡ worth port player s)
  requests-worth id name buy amount seat s t sound e z = (
    sit_at_table-worth id name buy seat s t sound e z,
    add_on_at_table-worth id amount s sound,
    leave_table-worth id s,
  )
