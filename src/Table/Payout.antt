-- ===== src/Table/Payout.antt =====
-- packages/core/src/table.ts: the settlement of a hand moves the pots into the stacks, less the
-- rake.
use mathlib.Core.Path.{subst}
use vr_poker.Prelude.{
  ℕ, zero, suc, ◌+◌, ◌<◌, ◌≡◌, ◌≢◌, inl, inr, refl, ap, Bool, Option, some, List, [], ◌∷◌, arith,
  Option-cases, find_index, set, dec_lt,
}
use vr_poker.Cards.{Card}
use vr_poker.Pots.{PotShare, Pot, split_pot}
use vr_poker.Pots.Shares.{split_pot-sum}
use vr_poker.Table.State.{Table, TableConfig, Seat, Event, Award, returned}
use vr_poker.Table.Monad.{or_throw, modify, log, running}
use vr_poker.Table.Seats.{Seats, seat_at, with_seat, update_seat, find_seat, is_player}
use vr_poker.Table.Settle.{
  take_back, pay_shares, give_back, settle_pot, raked_of, score, winner_ids, best_value, Scored,
}
use vr_poker.Table.Chips.{
  Keeps, Keeps-bind, Keeps-then, Keeps-if, Keeps-skip, keeps_rules, count-with_no_seat,
  seat_ref-Keeps,
}
use vr_poker.Table.Credit.{stacks, Ensures, pay_shares-Adds, seat_of-Keeps}

-- Somebody has the best value.
some_winner : (b : ℕ) (ss : List Scored) → best_value ss ≡ b → 0 < b → winner_ids b ss ≢ []
some_winner b [] e p = absurd (omega arith)
some_winner b (s ∷ ss) e p = elim (dec_lt (best_value ss) s.1) [
  | yes h ↦ ground arith
  | no h ↦ ground (arith, some_winner b ss)
]

winners_exist : (s : Scored) (ss : List Scored) → winner_ids (best_value (s ∷ ss)) (s ∷ ss) ≢ []
winners_exist s ss = elim (dec_lt 0 (best_value (s ∷ ss))) [
  | yes h ↦ some_winner (best_value (s ∷ ss)) (s ∷ ss) refl h
  | no h ↦ ground arith
]

score-cons :
    (board : List Card) (p : Seat) (ps : List Seat) {ss : List Scored}
    → score board (p ∷ ps) ≡ some ss
    → winner_ids (best_value ss) ss ≢ []
unfolding score
score-cons board p ps {ss = []} e = ground arith
score-cons board p ps {ss = s ∷ ss} e = winners_exist s ss

-- A pot that has a contender is paid out in full, less the rake.
pub settle_pot-paid :
    (pot : Pot) (p : Seat) (ps : List Seat) (awards : List Award) (t : Table)
    → Ensures
        (λ _ u. stacks u ≡ stacks t + (raked_of t pot.amount).net)
        (settle_pot pot (p ∷ ps) awards t)
unfolding settle_pot running
settle_pot-paid pot p ps awards t = elim (Option-cases (score t.board (p ∷ ps))) [
  | inl e ↦ rw (e, or_throw) tt
  | inr (ss, e) ↦
      let net = (raked_of t pot.amount).net in
      let ids = winner_ids (best_value ss) ss in
      rw (e, or_throw)
        (subst
          (λ n. Ensures (λ _ u. stacks u ≡ stacks t + n) (pay_shares (split_pot net ids) awards t))
          (split_pot-sum net ids (score-cons t.board p ps e))
          ((pay_shares-Adds (split_pot net ids) awards).at t))
]

-- Rewriting a seat without changing its player leaves the searches alone.
find_index-set :
    (q : ℕ) (g : Seat → Seat) (seats : Seats) (i : ℕ) {p : Seat}
    → ((s : Seat) → (g s).player_id ≡ s.player_id)
    → seat_at seats i ≡ some p
    → find_index (is_player q) (set seats i (some (g p))) ≡ find_index (is_player q) seats
find_index-set q g [] i h e = cc
find_index-set q g (s ∷ seats) zero {p} h e = ground (arith, h p)
find_index-set q g (s ∷ seats) (suc i) h e = ground (arith, find_index-set q g seats i h e)

-- What the settlement of a pot reads and does not change: where a player sits, the rules, and
-- whether there was a flop.
abbrev pub Setting : Type 0
Setting = Option ℕ × TableConfig × Bool

module _ (q : ℕ) where
  abbrev pub setting : Table → Setting
  setting t = (find_seat t.seats q, t.config, t.flop_seen)

  pub update_seat-setting :
      (i : ℕ) (g : Seat → Seat)
      → ((s : Seat) → (g s).player_id ≡ s.player_id)
      → Keeps setting (update_seat i g)
  unfolding update_seat modify find_seat
  update_seat-setting i g h = record {
    at = λ t. elim (Option-cases (seat_at t.seats i)) [
      | inl e ↦ ap setting (count-with_no_seat (λ s. s.stack) i g t e)
      | inr (p, e) ↦
          rw (e, with_seat)
            (ap (λ x. (x, t.config, t.flop_seen)) (find_index-set q g t.seats i h e))
    ];
  }

  pub log-setting : (e : Event) → Keeps setting (log e)
  unfolding log
  log-setting e = record { at = λ t. refl }

  ruleset setting_rules =
      (keeps_rules, seat_ref-Keeps, seat_of-Keeps, update_seat-setting, log-setting)

  pay_shares-setting :
      (shares : List PotShare) (awards : List Award) → Keeps setting (pay_shares shares awards)
  unfolding pay_shares
  pay_shares-setting [] awards = search setting_rules
  pay_shares-setting (s ∷ ss) awards =
      search (setting_rules, λ (l : List Award). pay_shares-setting ss l) depth 12

  pub settle_pot-setting :
      (pot : Pot) (ps : List Seat) (awards : List Award) → Keeps setting (settle_pot pot ps awards)
  unfolding settle_pot
  settle_pot-setting pot ps awards = search (keeps_rules, pay_shares-setting) depth 8

  pub give_back-setting : (logged : Bool) (rs : List PotShare) → Keeps setting (give_back logged rs)
  unfolding give_back
  give_back-setting logged [] = search setting_rules
  give_back-setting logged (r ∷ rs) = Keeps-bind (seat_of-Keeps r.player_id) (λ i.
      Keeps-then (update_seat-setting i (take_back r.amount) (λ s. refl)) (
        Keeps-bind (seat_ref-Keeps i) (λ w.
          Keeps-then (Keeps-if logged (log-setting (returned r.amount w.name)) Keeps-skip)
            (give_back-setting logged rs))))
