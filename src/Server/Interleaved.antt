-- ===== src/Server/Interleaved.antt =====
-- services/game-server/src: requests that interleave where they await the ledger.
-- The operations of table-ops.ts that move chips and the add-on of app.ts, cut at the awaits: what a
-- request does next, after its ledger call, is a job, and any job may go on next. The names of players
-- are left aside, and so are the requests that play a hand, which await nothing.
use Prim.Native.String.{String}
use vr_poker.Prelude.{ℕ, zero, suc, Option, none, some, List, [], ◌∷◌, ltb, if◌then◌else◌}
use vr_poker.Prelude.Int.{ℤ, pos, ◌+ℤ◌}
use vr_poker.Prelude.Maps.{lookup_in, write_in}
use vr_poker.Ledger.Entries.{Fallible, done, failed}
use vr_poker.Table.State.{Table}
use vr_poker.Table.Monad.{Result, ok, err}
use vr_poker.Table.Play.{sit, add_on, cash_out}
use vr_poker.Server.Port.{ChipLedgerPort}

-- What is left of a request: to buy in after the account is open, to ask the table after a debit, to compensate a debit that the table
-- refused, or to credit what was taken from a table.
pub data Job : Type 0 where
  to_buy_in : ℕ → ℕ → String → ℤ → Option ℤ → Job
  to_sit : ℕ → ℕ → String → ℤ → Option ℤ → Job
  to_add_on : ℕ → ℕ → ℤ → Job
  to_refund : ℕ → ℕ → ℤ → Job
  to_credit : ℕ → ℕ → ℕ → Job

-- A request comes in, or the job at a place goes on.
pub data Event : Type 0 where
  asks_seat : ℕ → ℕ → String → ℤ → Option ℤ → Event
  asks_add_on : ℕ → ℕ → ℤ → Event
  asks_leave : ℕ → ℕ → Event
  goes_on : ℕ → Event

-- `lost` counts the chips that a ledger's refusal of a compensation or a credit leaves nowhere.
pub record System (L : Type 0) : Type 0 where
  pub tables : List (ℕ × Table)
  pub ledger : L
  pub jobs : List Job
  pub lost : ℤ

abbrev pub take_job : ℕ → List Job → Option (Job × List Job)
take_job n [] = none
take_job zero (j ∷ js) = some (j, js)
take_job (suc n) (j ∷ js) =
    let rest = take_job n js in elim rest [ none ↦ none | some r ↦ some (r.0, j ∷ r.1) ]

module _ {L : Type 0} where
  -- a call of the ledger for a request, and the job that follows it: one that fails ends the request
  abbrev pub debited : Job → System L → Fallible (Unit {0}) × L → System L
  debited job s (failed e, l) = record s { ledger = l }
  debited job s (done a, l) = record s { ledger = l; jobs = job ∷ s.jobs }

  abbrev pub asked : {A : Type 0} → ℕ → ℕ → ℤ → System L → Result A × Table → System L
  asked id player amount s (ok a, t) = record s { tables = write_in id t s.tables }
  asked id player amount s (err e, t) = record s {
    tables = write_in id t s.tables;
    jobs = to_refund id player amount ∷ s.jobs;
  }

  abbrev pub repaid : ℤ → System L → Fallible (Unit {0}) × L → System L
  repaid amount s (done a, l) = record s { ledger = l }
  repaid amount s (failed e, l) = record s { ledger = l; lost = s.lost +ℤ amount }

  abbrev pub left_with : ℕ → ℕ → System L → Result ℕ × Table → System L
  left_with id player s (err e, t) = record s { tables = write_in id t s.tables }
  left_with id player s (ok chips, t) =
      let up : System L = record s { tables = write_in id t s.tables } in
      if ltb 0 chips then record up { jobs = to_credit id player chips ∷ up.jobs } else up

module _ {L : Type 0} (port : ChipLedgerPort L) where
  -- A table of a server stays on it, so the one of a job is there.
  unfoldable pub proceed : Job → System L → System L
  unfolding sit add_on
  proceed (to_buy_in id player name buy seat) s =
      debited (to_sit id player name buy seat) s (port.buy_in player buy id s.ledger)
  proceed (to_sit id player name buy seat) s = elim (lookup_in id s.tables) [
    | none ↦ record s { jobs = to_sit id player name buy seat ∷ s.jobs }
    | some t ↦ asked id player buy s (sit player name buy seat t)
  ]
  proceed (to_add_on id player amount) s = elim (lookup_in id s.tables) [
    | none ↦ record s { jobs = to_add_on id player amount ∷ s.jobs }
    | some t ↦ asked id player amount s (add_on player amount t)
  ]
  proceed (to_refund id player amount) s = repaid amount s (port.cash_out player amount id s.ledger)
  proceed (to_credit id player chips) s =
      repaid (pos chips) s (port.cash_out player (pos chips) id s.ledger)

  unfoldable pub happens : Event → System L → System L
  unfolding proceed cash_out
  happens (asks_seat id player name buy seat) s = elim (lookup_in id s.tables) [
    | none ↦ s
    | some t ↦
        debited (to_buy_in id player name buy seat) s
          (port.ensure_account player (some name) s.ledger)
  ]
  happens (asks_add_on id player amount) s = elim (lookup_in id s.tables) [
    | none ↦ s
    | some t ↦ debited (to_add_on id player amount) s (port.add_on player amount id s.ledger)
  ]
  happens (asks_leave id player) s = elim (lookup_in id s.tables) [
    | none ↦ s
    | some t ↦ left_with id player s (cash_out player t)
  ]
  happens (goes_on n) s = elim (take_job n s.jobs) [
    | none ↦ s
    | some r ↦ proceed r.0 (record s { jobs = r.1 })
  ]

  abbrev pub plays_out : List Event → System L → System L
  plays_out [] s = s
  plays_out (e ∷ es) s = plays_out es (happens e s)
