-- ===== src/Server/Others.antt =====
-- services/game-server/src: a request leaves the ledger balances of all players but its own.
use Prim.Native.String.{String, len}
use vr_poker.Prelude.{
  ℕ, ◌≡◌, inl, inr, refl, ◌∙◌, false, Option, some, ◌==◌, ltb, Bool-cases, Option-cases,
}
use vr_poker.Prelude.Int.{ℤ, pos}
use vr_poker.Prelude.Maps.{lookup_in}
use vr_poker.Ledger.Entries.{Fallible, done, failed}
use vr_poker.Table.State.{Table, PlayerAction}
use vr_poker.Table.Monad.{Error, Result, ok, err}
use vr_poker.Table.Play.{sit, add_on, cash_out, act, start_hand}
use vr_poker.Server.Port.{ChipLedgerPort}
use vr_poker.Server.Ops.{
  Server, put_ledger, put_table, ensure_account, broadcast_table, give_back, or_refund, after_debit,
  after_ensure, sit_at_table, add_on_at_table, after_credit, after_cash_out, leave_table,
  after_start, start_table_hand, after_act, act_at_table, arm_timeout,
}

-- An operation of a ledger for one player keeps the balances of the others.
pub record KeepsOthers {L : Type 0} (p : ChipLedgerPort L) : Type 0 where
  pub account_keeps :
      (player other : ℕ) (name : Option String) (l : L)
      → (player == other) ≡ false
      → p.holds other (p.ensure_account player name l).1 ≡ p.holds other l
  pub buy_in_keeps :
      (player other table : ℕ) (amount : ℤ) (l : L)
      → (player == other) ≡ false
      → p.holds other (p.buy_in player amount table l).1 ≡ p.holds other l
  pub add_on_keeps :
      (player other table : ℕ) (amount : ℤ) (l : L)
      → (player == other) ≡ false
      → p.holds other (p.add_on player amount table l).1 ≡ p.holds other l
  pub cash_out_keeps :
      (player other table : ℕ) (amount : ℤ) (l : L)
      → (player == other) ≡ false
      → p.holds other (p.cash_out player amount table l).1 ≡ p.holds other l

-- What a broadcast and the timers do not touch.
module _ {L : Type 0} where
  pub broadcast_table-ledger : (id : ℕ) (s : Server L) → (broadcast_table id s).ledger ≡ s.ledger
  unfolding broadcast_table
  broadcast_table-ledger id s = elim (Option-cases (lookup_in id s.tables)) [
    | inl e ↦ rw (broadcast_table, e) refl
    | inr (t, e) ↦ rw (broadcast_table, e) refl
  ]

  started_ledger :
      (id : ℕ) (s : Server L) (r : Result (Unit {0}) × Table)
      → (after_start id s r).1.ledger ≡ s.ledger
  unfolding arm_timeout
  started_ledger id s (err e, t) = refl
  started_ledger id s (ok a, t) = refl

  pub start_table_hand-ledger :
      (id : ℕ) (s : Server L) → (start_table_hand id s).1.ledger ≡ s.ledger
  unfolding start_table_hand
  start_table_hand-ledger id s = elim (Option-cases (lookup_in id s.tables)) [
    | inl e ↦ rw (start_table_hand, e) refl
    | inr (t, e) ↦ rw (start_table_hand, e) (started_ledger id s (start_hand t))
  ]

  acted_ledger :
      (id : ℕ) (s : Server L) (r : Result (Unit {0}) × Table)
      → (after_act id s r).1.ledger ≡ s.ledger
  unfolding arm_timeout
  acted_ledger id s (err e, t) = refl
  acted_ledger id s (ok a, t) = broadcast_table-ledger id (arm_timeout id t (put_table id t s))

  pub act_at_table-ledger :
      (id player : ℕ) (action : PlayerAction) (s : Server L)
      → (act_at_table id player action s).1.ledger ≡ s.ledger
  unfolding act_at_table
  act_at_table-ledger id player action s = elim (Option-cases (lookup_in id s.tables)) [
    | inl e ↦ rw (act_at_table, e) refl
    | inr (t, e) ↦ rw (act_at_table, e) (acted_ledger id s (act player action t))
  ]

module _ {L : Type 0} (port : ChipLedgerPort L) (laws : KeepsOthers port) (player other : ℕ)
    (apart : (player == other) ≡ false) where
  pub ensure_account-other :
      (name : String) (s : Server L)
      → port.holds other (ensure_account port player name s).1.ledger ≡ port.holds other s.ledger
  unfolding ensure_account
  ensure_account-other name s = elim (Bool-cases (len name == 0)) [
    | inl y ↦ rw y (laws.account_keeps player other (some name) s.ledger apart)
    | inr n ↦ rw n (laws.account_keeps player other (some name) s.ledger apart)
  ]

  gave_back_other :
      (e : Error) (s : Server L) (r : Fallible (Unit {0}) × L)
      → port.holds other (give_back e s r).1.ledger ≡ port.holds other r.1
  gave_back_other e s (done a, l) = refl
  gave_back_other e s (failed x, l) = refl

  settled_other :
      {A : Type 0} (id : ℕ) (amount : ℤ) (s : Server L) (r : Result A × Table)
      → port.holds other (or_refund port id player amount s r).1.ledger ≡ port.holds other s.ledger
  settled_other id amount s (ok a, t) = refl
  settled_other id amount s (err e, t) =
      gave_back_other e (put_table id t s) (port.cash_out player amount id s.ledger)
      ∙ laws.cash_out_keeps player other id amount s.ledger apart

  debited_other :
      {A : Type 0} (id : ℕ) (amount : ℤ) (brought : Result A × Table) (s : Server L)
      (r : Fallible (Unit {0}) × L)
      → port.holds other (after_debit port id player amount brought s r).1.ledger
        ≡ port.holds other r.1
  debited_other id amount brought s (done a, l) = settled_other id amount (put_ledger l s) brought
  debited_other id amount brought s (failed x, l) = refl

  pub add_on_at_table-other :
      (id : ℕ) (amount : ℤ) (s : Server L)
      → port.holds other (add_on_at_table port id player amount s).1.ledger
        ≡ port.holds other s.ledger
  unfolding add_on_at_table
  add_on_at_table-other id amount s = elim (Option-cases (lookup_in id s.tables)) [
    | inl e ↦ rw (add_on_at_table, e) refl
    | inr (t, e) ↦
        rw (add_on_at_table, e)
          (debited_other id amount (add_on player amount t) s
              (port.add_on player amount id s.ledger)
            ∙ laws.add_on_keeps player other id amount s.ledger apart)
  ]

  seated_other :
      (id : ℕ) (name : String) (buy : ℤ) (seat : Option ℤ) (t : Table)
      (r : Fallible (Unit {0}) × Server L)
      → port.holds other (after_ensure port id player name buy seat t r).1.ledger
        ≡ port.holds other r.1.ledger
  seated_other id name buy seat t (failed x, s) = refl
  seated_other id name buy seat t (done a, s) =
      debited_other id buy (sit player name buy seat t) s (port.buy_in player buy id s.ledger)
      ∙ laws.buy_in_keeps player other id buy s.ledger apart

  pub sit_at_table-other :
      (id : ℕ) (name : String) (buy : ℤ) (seat : Option ℤ) (s : Server L)
      → port.holds other (sit_at_table port id player name buy seat s).1.ledger
        ≡ port.holds other s.ledger
  unfolding sit_at_table
  sit_at_table-other id name buy seat s = elim (Option-cases (lookup_in id s.tables)) [
    | inl e ↦ rw (sit_at_table, e) refl
    | inr (t, e) ↦
        rw (sit_at_table, e)
          (seated_other id name buy seat t (ensure_account port player name s)
            ∙ ensure_account-other name s)
  ]

  credited_other :
      (chips : ℕ) (s : Server L) (r : Fallible (Unit {0}) × L)
      → port.holds other (after_credit chips s r).1.ledger ≡ port.holds other r.1
  credited_other chips s (done a, l) = refl
  credited_other chips s (failed x, l) = refl

  left_other :
      (id : ℕ) (s : Server L) (r : Result ℕ × Table)
      → port.holds other (after_cash_out port id player s r).1.ledger ≡ port.holds other s.ledger
  left_other id s (err e, t) = refl
  left_other id s (ok chips, t) = elim (Bool-cases (ltb 0 chips)) [
    | inl y ↦ rw y (
        credited_other chips (put_table id t s) (port.cash_out player (pos chips) id s.ledger)
        ∙ laws.cash_out_keeps player other id (pos chips) s.ledger apart)
    | inr n ↦ rw n refl
  ]

  pub leave_table-other :
      (id : ℕ) (s : Server L)
      → port.holds other (leave_table port id player s).1.ledger ≡ port.holds other s.ledger
  unfolding leave_table
  leave_table-other id s = elim (Option-cases (lookup_in id s.tables)) [
    | inl e ↦ rw (leave_table, e) refl
    | inr (t, e) ↦ rw (leave_table, e) (left_other id s (cash_out player t))
  ]
