-- ===== src/Table/Shape.antt =====
-- packages/core/src/table.ts: `sit`, `addOn` and `cashOut` change neither the number of seats nor the
-- rules.
use Prim.Native.String.{String}
use vr_poker.Prelude.{
  ℕ, ◌≡◌, refl, ap, ◌∙◌, ◌||◌, Option, none, some, length, set, length-set, inl, inr, Option-cases,
}
use vr_poker.Prelude.Int.{ℤ, pos, pos_part, ltb_ℤ, leb_ℤ, ◌+ℤ◌}
use vr_poker.Table.State.{Table, TableConfig, Seat}
use vr_poker.Table.Monad.{
  Result, already_seated, bad_buy_in, no_empty_seat, not_seated, null_access, add_on_too_large,
  add_on_not_positive, running,
}
use vr_poker.Table.Seats.{seat_at, with_seat, update_seat, seat_ref, require_seat, find_seat}
use vr_poker.Table.Play.{assert_idle, sit, add_on, cash_out, free_seat, chosen_seat, found}
use vr_poker.Table.Bank.{till, assert_idle-till, after_kept, after_guard, after_option}

abbrev pub shape : Table → ℕ × TableConfig
shape t = (length t.seats, t.config)

abbrev Shaped : {A : Type 0} → Table → Result A × Table → Type 0
Shaped t r = shape r.1 ≡ shape t

from_till : (u t : Table) → till u ≡ till t → shape u ≡ shape t
from_till u t h = ap (λ c. (c.1, c.2)) h

set-shape :
    (u : Table) (i : ℕ) (s : Option Seat) → shape (record u { seats = set u.seats i s }) ≡ shape u
set-shape u i s = ap (λ n. (n, u.config)) (length-set u.seats i s)

pub sit-shape :
    (id : ℕ) (name : String) (buy : ℤ) (seat : Option ℤ) (t : Table)
    → shape (sit id name buy seat t).1 ≡ shape t
unfolding sit running
sit-shape id name buy seat t =
    let Q : Result ℕ × Table → Type 0 = λ r. Shaped t r in
    after_kept Q (till t) _ (assert_idle t) (assert_idle-till.at t) (λ e u h. from_till u t h)
      (λ a u h.
        let base : shape u ≡ shape t = from_till u t h in
        after_guard Q (found (find_seat u.seats id)) already_seated _ u base (λ new.
          after_guard Q (ltb_ℤ buy (pos u.config.min_buy_in) || ltb_ℤ (pos u.config.max_buy_in) buy)
            bad_buy_in _ u base
            (λ fits.
              after_option Q (free_seat u (chosen_seat u.seats seat)) no_empty_seat _ u base
                (λ i e. set-shape u i _ ∙ base))))

pub cash_out-shape : (id : ℕ) (t : Table) → shape (cash_out id t).1 ≡ shape t
unfolding cash_out running require_seat seat_ref
cash_out-shape id t =
    let Q : Result ℕ × Table → Type 0 = λ r. Shaped t r in
    after_kept Q (till t) _ (assert_idle t) (assert_idle-till.at t) (λ e u h. from_till u t h)
      (λ a u h.
        let base : shape u ≡ shape t = from_till u t h in
        after_option Q (find_seat u.seats id) not_seated _ u base (λ i e.
          after_option Q (seat_at u.seats i) null_access _ u base
            (λ p at. set-shape u i none ∙ base)))

with_seat-shape : (i : ℕ) (f : Seat → Seat) (u : Table) → shape (with_seat i f u) ≡ shape u
with_seat-shape i f u = elim (Option-cases (seat_at u.seats i)) [
  | inl e ↦ rw (with_seat, e) refl
  | inr (p, e) ↦ rw (with_seat, e) (set-shape u i (some (f p)))
]

pub add_on-shape : (id : ℕ) (amount : ℤ) (t : Table) → shape (add_on id amount t).1 ≡ shape t
unfolding add_on running require_seat seat_ref update_seat
add_on-shape id amount t =
    let Q : Result (Unit {0}) × Table → Type 0 = λ r. Shaped t r in
    after_kept Q (till t) _ (assert_idle t) (assert_idle-till.at t) (λ e u h. from_till u t h)
      (λ a u h.
        let base : shape u ≡ shape t = from_till u t h in
        after_option Q (find_seat u.seats id) not_seated _ u base (λ i e.
          after_option Q (seat_at u.seats i) null_access _ u base (λ p at.
            after_guard Q (ltb_ℤ (pos u.config.max_buy_in) (pos p.stack +ℤ amount)) add_on_too_large
              _ u base
              (λ fits.
                after_guard Q (leb_ℤ amount (pos 0)) add_on_not_positive _ u base (λ positive.
                  with_seat-shape i (λ s. record s { stack = pos_part (pos p.stack +ℤ amount) }) u
                  ∙ base)))))
