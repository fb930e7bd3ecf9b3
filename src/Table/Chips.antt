-- ===== src/Table/Chips.antt =====
-- The chips on the table, in the stacks and in the pot, and the methods that keep their number.
use vr_poker.Prelude.{
  ℕ, ◌+◌, ◌≡◌, inl, inr, refl, ap, ◌∙◌, Bool, true, false, Option, none, some, [], ◌∷◌, arith,
  get_elem?, if◌then◌else◌, ltb, Bool-cases, Option-cases, ltb-false,
}
use vr_poker.Prelude.Sums.{sum_of, sum_of-set}
use vr_poker.Table.State.{Table, Seat, Event}
use vr_poker.Table.Monad.{
  Action, Result, ok, err, Error, pure, throw, or_throw, gets, modify, throw_if, log, skip, ◌>>=◌,
  ◌>>◌, and_then, running,
}
use vr_poker.Table.Seats.{
  Seats, seat_at, for_occupied, with_seat, update_seat, seat_ref, put, put_in,
}

-- What a seat holds by a count of its player's chips.
abbrev pub held : (Seat → ℕ) → Option Seat → ℕ
held f none = 0
held f (some p) = f p

abbrev pub count_chips : (Seat → ℕ) → Seats → ℕ
count_chips f = sum_of (held f)

abbrev pub all_chips : Seat → ℕ
all_chips p = p.stack + p.hand_commit

-- The chips of the players, with what they have put into the pot in this hand.
abbrev pub chips : Table → ℕ
chips t = count_chips all_chips t.seats

-- A method that keeps a value that is read off the table, whether it returns or throws.
pub record Keeps {X : Type 0} (f : Table → X) {A : Type 0} (m : Action A) : Type 0 where
  pub at : (t : Table) → f (m t).1 ≡ f t

module _ {X : Type 0} {f : Table → X} where
  and_then-Keeps :
      {A B : Type 0} (k : A → Action B) (r : Result A × Table) (n : X)
      → f r.1 ≡ n
      → ((a : A) → Keeps f (k a))
      → f (and_then k r).1 ≡ n
  and_then-Keeps k (ok a, t) n e h = (h a).at t ∙ e
  and_then-Keeps k (err x, t) n e h = e

  pub Keeps-bind :
      {A B : Type 0} {m : Action A} {k : A → Action B}
      → Keeps f m
      → ((a : A) → Keeps f (k a))
      → Keeps f (m >>= k)
  unfolding ◌>>=◌
  Keeps-bind {m = m} {k = k} h j = record { at = λ t. and_then-Keeps k (m t) (f t) (h.at t) j }

  pub Keeps-then :
      {A B : Type 0} {m : Action A} {k : Action B} → Keeps f m → Keeps f k → Keeps f (m >> k)
  unfolding ◌>>◌
  Keeps-then {m = m} {k = k} h j = record {
    at = λ t. and_then-Keeps (λ _. k) (m t) (f t) (h.at t) (λ _. j);
  }

  pub Keeps-pure : {A : Type 0} (a : A) → Keeps f (pure a)
  unfolding pure
  Keeps-pure a = record { at = λ t. refl }

  pub Keeps-throw : {A : Type 0} (e : Error) → Keeps f (throw {A = A} e)
  unfolding throw
  Keeps-throw e = record { at = λ t. refl }

  pub Keeps-gets : {A : Type 0} (g : Table → A) → Keeps f (gets g)
  unfolding gets
  Keeps-gets g = record { at = λ t. refl }

  pub Keeps-or_throw : {A : Type 0} (o : Option A) (e : Error) → Keeps f (or_throw o e)
  unfolding or_throw
  Keeps-or_throw none e = record { at = λ t. refl }
  Keeps-or_throw (some a) e = record { at = λ t. refl }

  pub Keeps-throw_if : (b : Bool) (e : Error) → Keeps f (throw_if b e)
  unfolding throw_if
  Keeps-throw_if b e = record { at = λ t. refl }

  pub Keeps-skip : Keeps f skip
  unfolding skip
  Keeps-skip = record { at = λ t. refl }

  pub Keeps-if :
      {A : Type 0} (b : Bool) {m k : Action A}
      → Keeps f m
      → Keeps f k
      → Keeps f (if b then m else k)
  Keeps-if true h j = h
  Keeps-if false h j = j

pub ruleset keeps_rules = (
  Keeps-bind, Keeps-then, Keeps-pure, Keeps-throw, Keeps-gets, Keeps-or_throw, Keeps-throw_if,
  Keeps-skip, Keeps-if,
)

-- A method that writes no seat keeps every count of chips.
pub Keeps-modify :
    (f : Seat → ℕ) (g : Table → Table)
    → ((t : Table) → (g t).seats ≡ t.seats)
    → Keeps (λ t. count_chips f t.seats) (modify g)
unfolding modify
Keeps-modify f g h = record { at = λ t. ap (count_chips f) (h t) }

seat_at-get :
    (seats : Seats) (i : ℕ) {p : Seat}
    → seat_at seats i ≡ some p
    → get_elem? seats i ≡ some (some p)
seat_at-get seats i e = ground arith

-- A write to one seat moves the count by what it changes of that seat.
pub count-with_seat :
    (f : Seat → ℕ) (i : ℕ) (g : Seat → Seat) (t : Table) {p : Seat}
    → seat_at t.seats i ≡ some p
    → count_chips f (with_seat i g t).seats + f p ≡ count_chips f t.seats + f (g p)
count-with_seat f i g t {p} e =
    rw (e, with_seat) (sum_of-set (held f) t.seats i (some (g p)) (seat_at-get t.seats i e))

pub count-with_no_seat :
    (f : Seat → ℕ) (i : ℕ) (g : Seat → Seat) (t : Table)
    → seat_at t.seats i ≡ none
    → with_seat i g t ≡ t
count-with_no_seat f i g t e = rw (e, with_seat) refl

pub update_seat-Keeps :
    (f : Seat → ℕ) (i : ℕ) (g : Seat → Seat)
    → ((p : Seat) → f (g p) ≡ f p)
    → Keeps (λ t. count_chips f t.seats) (update_seat i g)
unfolding update_seat modify
update_seat-Keeps f i g h = record {
  at = λ t. elim (Option-cases (seat_at t.seats i)) [
    | inl e ↦ ap (λ u. count_chips f u.seats) (count-with_no_seat f i g t e)
    | inr (p, e) ↦ omega (arith, count-with_seat f i g t e, h p)
  ];
}

pub count-for_occupied :
    (f : Seat → ℕ) (g : Seat → Seat) (seats : Seats)
    → ((p : Seat) → f (g p) ≡ f p)
    → count_chips f (for_occupied g seats) ≡ count_chips f seats
unfolding for_occupied
count-for_occupied f g [] h = refl
count-for_occupied f g (none ∷ seats) h = omega (arith, count-for_occupied f g seats h)
count-for_occupied f g (some p ∷ seats) h = omega (arith, count-for_occupied f g seats h, h p)

-- `put` moves chips from the stack into the pot, or throws and moves none.
pub put-Keeps : (i amount : ℕ) → Keeps chips (put i amount)
unfolding put running
put-Keeps i amount = record {
  at = λ t. elim (Option-cases (seat_at t.seats i)) [
    | inl e ↦ rw (e, or_throw) refl
    | inr (p, e) ↦
        rw (e, or_throw)
          (elim (Bool-cases (ltb p.stack amount)) [
            | inl big ↦ rw big refl
            | inr fits ↦ rw fits (
                omega (
                  arith,
                  count-with_seat all_chips i (put_in amount) t e,
                  ltb-false p.stack amount fits,
                ))
          ])
  ];
}

pub seat_ref-Keeps : {X : Type 0} {f : Table → X} (i : ℕ) → Keeps f (seat_ref i)
unfolding seat_ref
seat_ref-Keeps i = search keeps_rules

pub log-Keeps : (f : Seat → ℕ) (e : Event) → Keeps (λ t. count_chips f t.seats) (log e)
unfolding log
log-Keeps f e = record { at = λ t. refl }
