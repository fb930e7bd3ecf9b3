-- ===== src/Table/Credit.antt =====
-- Methods that add to the stacks: what a call that returns has paid out.
use mathlib.Core.Path.{subst}
use vr_poker.Prelude.{
  ℕ, ◌+◌, ◌≡◌, inl, inr, refl, Bool, none, some, List, [], ◌∷◌, arith, Option-cases,
}
use vr_poker.Prelude.Sums.{sum_of}
use vr_poker.Pots.{PotShare}
use vr_poker.Table.State.{Table, Seat, Event, Award}
use vr_poker.Table.Monad.{
  Action, Result, ok, err, pure, or_throw, modify, log, skip, ◌>>=◌, ◌>>◌, and_then, running,
}
use vr_poker.Table.Seats.{seat_at, with_seat, update_seat, seat_ref}
use vr_poker.Table.Settle.{seat_of, gain, take_back, pay_shares, give_back}
use vr_poker.Table.Chips.{
  Keeps, keeps_rules, chips, all_chips, count_chips, Keeps-modify, update_seat-Keeps, held,
  count-with_seat, count-with_no_seat, seat_ref-Keeps, log-Keeps,
}

abbrev pub stack_of : Seat → ℕ
stack_of p = p.stack

abbrev pub stacks : Table → ℕ
stacks t = count_chips stack_of t.seats

-- What holds of a call that returns.
abbrev pub Ensures : {A : Type 0} → (A → Table → Type 0) → Result A × Table → Type 0
Ensures P (ok a, t) = P a t
Ensures P (err e, t) = Unit

pub Ensures-and_then :
    {A B : Type 0} (P : B → Table → Type 0) (k : A → Action B) (r : Result A × Table)
    → Ensures (λ a u. Ensures P (k a u)) r
    → Ensures P (and_then k r)
Ensures-and_then P k (ok a, t) h = h
Ensures-and_then P k (err e, t) h = tt

-- A call that returns has raised the stacks by `n`.
pub record Adds (n : ℕ) {A : Type 0} (m : Action A) : Type 0 where
  pub at : (t : Table) → Ensures (λ a u. stacks u ≡ stacks t + n) (m t)

Adds-and_then :
    {A B : Type 0} (k : A → Action B) (r : Result A × Table) (n s : ℕ)
    → stacks r.1 ≡ s
    → ((a : A) → Adds n (k a))
    → Ensures (λ b u. stacks u ≡ s + n) (and_then k r)
Adds-and_then k (ok a, t) n s e h = rw (← e) ((h a).at t)
Adds-and_then k (err x, t) n s e h = tt

pub Adds-bind :
    {n : ℕ} {A B : Type 0} {m : Action A} {k : A → Action B}
    → Keeps stacks m
    → ((a : A) → Adds n (k a))
    → Adds n (m >>= k)
unfolding ◌>>=◌
Adds-bind {n} {m = m} {k = k} h j = record {
  at = λ t. Adds-and_then k (m t) n (stacks t) (h.at t) j;
}

pub Adds-then :
    {n : ℕ} {A B : Type 0} {m : Action A} {k : Action B}
    → Keeps stacks m
    → Adds n k
    → Adds n (m >> k)
unfolding ◌>>◌
Adds-then {n} {m = m} {k = k} h j = record {
  at = λ t. Adds-and_then (λ _. k) (m t) n (stacks t) (h.at t) (λ _. j);
}

pub Adds-pure : {A : Type 0} (a : A) → Adds 0 (pure a)
unfolding pure
Adds-pure a = record { at = λ t. omega arith }

pub Adds-skip : Adds 0 skip
unfolding skip
Adds-skip = record { at = λ t. omega arith }

seat_missing :
    {B : Type 0} (P : B → Table → Type 0) (i : ℕ) (k : Seat → Action B) (u : Table)
    → seat_at u.seats i ≡ none
    → Ensures P ((seat_ref i >>= k) u)
unfolding seat_ref running
seat_missing P i k u e = rw (e, or_throw) tt

seat_read :
    {B : Type 0} (P : B → Table → Type 0) (i : ℕ) (k : Seat → Action B) (u : Table)
    → ((w : Seat) → Ensures P (k w u))
    → Ensures P ((seat_ref i >>= k) u)
unfolding seat_ref running
seat_read P i k u h = elim (Option-cases (seat_at u.seats i)) [
  | inl e ↦ rw (e, or_throw) tt
  | inr (w, e) ↦ rw (e, or_throw) (h w)
]

credited :
    (c i : ℕ) (g : Seat → Seat) (t : Table) {p : Seat}
    → ((p : Seat) → (g p).stack ≡ p.stack + c)
    → seat_at t.seats i ≡ some p
    → stacks (with_seat i g t) ≡ stacks t + c
credited c i g t {p} h e = omega (arith, count-with_seat stack_of i g t e, h p)

-- A credit to a seat that is then read: where nobody sits there, the read throws.
pub Adds-credit :
    (c : ℕ) {n : ℕ} {B : Type 0} (i : ℕ) (g : Seat → Seat) {k : Seat → Action B}
    → ((p : Seat) → (g p).stack ≡ p.stack + c)
    → ((w : Seat) → Adds n (k w))
    → Adds (c + n) (update_seat i g >> (seat_ref i >>= k))
unfolding update_seat modify ◌>>◌
Adds-credit c {n} {B} i g {k} h j = record {
  at = λ t.
      let u = with_seat i g t in
      let P = λ (s : ℕ) (b : B) (v : Table). stacks v ≡ s in
      elim (Option-cases (seat_at t.seats i)) [
        | inl e ↦
            rw (count-with_no_seat stack_of i g t e) (seat_missing (P (stacks t + (c + n))) i k t e)
        | inr (p, e) ↦ seat_read (P (stacks t + (c + n))) i k u (λ w.
            subst (λ s. Ensures (P s) (k w u)) (omega (arith, credited c i g t h e)) ((j w).at u))
      ];
}

pub seat_of-Keeps : {X : Type 0} {f : Table → X} (id : ℕ) → Keeps f (seat_of id)
unfolding seat_of
seat_of-Keeps id = search keeps_rules

pub stack_log-Keeps : (e : Event) → Keeps stacks (log e)
stack_log-Keeps = log-Keeps stack_of

pub ruleset adds_rules = (
  keeps_rules, Adds-bind, Adds-then, Adds-pure, Adds-skip, seat_ref-Keeps, seat_of-Keeps,
  stack_log-Keeps,
)

-- The loop over the shares of a pot pays out exactly their sum.
pub pay_shares-Adds :
    (shares : List PotShare) (awards : List Award)
    → Adds (sum_of (λ s. s.amount) shares) (pay_shares shares awards)
unfolding pay_shares
pay_shares-Adds [] awards = Adds-pure awards
pay_shares-Adds (s ∷ ss) awards = Adds-bind (seat_of-Keeps s.player_id) (λ i.
    Adds-credit s.amount i (gain s.amount) (λ p. refl)
      (λ w. search (adds_rules, λ (l : List Award). pay_shares-Adds ss l)))

-- The loop over the uncalled bets gives back exactly their sum.
pub give_back-Adds :
    (logged : Bool) (rs : List PotShare) → Adds (sum_of (λ s. s.amount) rs) (give_back logged rs)
unfolding give_back
give_back-Adds logged [] = Adds-skip
give_back-Adds logged (r ∷ rs) =
    let rest = give_back-Adds logged rs in
    Adds-bind (seat_of-Keeps r.player_id) (λ i.
      Adds-credit r.amount i (take_back r.amount) (λ p. refl) (λ w. search (adds_rules, rest)))
