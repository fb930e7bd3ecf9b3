-- ===== src/Table/Bank.antt =====
-- packages/core/src/table.ts: what `sit`, `addOn` and `cashOut` do to the stacks, on every branch.
use Prim.Native.String.{String}
use vr_poker.Prelude.{
  ℕ, zero, suc, ◌+◌, ◌<◌, ◌≡◌, inl, inr, refl, ap, sym, ◌∙◌, Bool, true, false, ◌||◌, Option, none,
  some, [], ◌∷◌, arith, if◌then◌else◌, leb, Bool-cases, length, get_elem?,
}
use vr_poker.Prelude.Sums.{sum_of-set}
use vr_poker.Prelude.Int.{ℤ, pos, negsuc, pos_part, neg_part, ltb_ℤ, leb_ℤ, ◌+ℤ◌}
use vr_poker.Table.State.{Table, TableConfig, Seat, Event}
use vr_poker.Table.Monad.{
  Action, Result, ok, err, Error, already_seated, bad_buy_in, no_empty_seat, not_seated,
  null_access, add_on_too_large, add_on_not_positive, or_throw, modify, log, skip, and_then,
  running,
}
use vr_poker.Table.Seats.{
  Seats, seat_at, for_occupied, update_seat, seat_ref, require_seat, find_seat,
}
use vr_poker.Table.Settle.{clear_hand, finish_hand, finalize_hand_if_complete}
use vr_poker.Table.Play.{
  assert_idle, sit, add_on, cash_out, free_seat, chosen_seat, new_seat, is_empty, found,
}
use vr_poker.Table.Chips.{
  Keeps, Keeps-bind, Keeps-then, Keeps-gets, keeps_rules, held, count-for_occupied, count-with_seat,
}
use vr_poker.Table.Credit.{stacks, stack_of}

-- What the bank of a table reads: the chips in the stacks, the number of seats, and the rules.
abbrev pub Till : Type 0
Till = ℕ × ℕ × TableConfig

abbrev pub till : Table → Till
till t = (stacks t, length t.seats, t.config)

length-for_occupied :
    (g : Seat → Seat) (seats : Seats) → length (for_occupied g seats) ≡ length seats
unfolding for_occupied
length-for_occupied g [] = refl
length-for_occupied g (none ∷ seats) = ap suc (length-for_occupied g seats)
length-for_occupied g (some p ∷ seats) = ap suc (length-for_occupied g seats)

cleared : (t : Table) → till (record t { seats = for_occupied clear_hand t.seats }) ≡ till t
cleared t =
    rw
      (
        count-for_occupied stack_of clear_hand t.seats (λ p. refl),
        length-for_occupied clear_hand t.seats,
      )
      refl

log-till : (e : Event) → Keeps till (log e)
unfolding log
log-till e = record { at = λ t. refl }

modify-till : (g : Table → Table) → ((t : Table) → till (g t) ≡ till t) → Keeps till (modify g)
unfolding modify
modify-till g h = record { at = h }

Keeps-option :
    {A B : Type 0} (o : Option A) {m : Action B} {k : A → Action B}
    → Keeps till m
    → ((a : A) → Keeps till (k a))
    → Keeps till (elim o [ none ↦ m | some a ↦ k a ])
Keeps-option none h j = h
Keeps-option (some a) h j = j a

skip-till : Keeps till skip
unfolding skip
skip-till = record { at = λ t. refl }

finish_hand-till : Keeps till finish_hand
unfolding finish_hand
finish_hand-till =
    Keeps-bind (Keeps-gets _)
      (λ deal. Keeps-then (Keeps-option deal skip-till (λ d. log-till _)) (modify-till _ cleared))

flag-till : Keeps till (modify (λ t. record t { hand_awaiting_finalize = false }))
flag-till = modify-till _ (λ t. refl)

finalize-till : Keeps till finalize_hand_if_complete
unfolding finalize_hand_if_complete
finalize-till = search (keeps_rules, finish_hand-till, flag-till) depth 9

pub assert_idle-till : Keeps till assert_idle
unfolding assert_idle
assert_idle-till = search (keeps_rules, finalize-till)

-- A claim about a call follows from one about what comes after its first part, which keeps the till
-- at `c`; an error of the first part ends the call.
module _ {A B : Type 0} (Q : Result B × Table → Type 0) (c : Till) where
  pub after_kept :
      (k : A → Action B) (r : Result A × Table)
      → till r.1 ≡ c
      → ((e : Error) (u : Table) → till u ≡ c → Q (err e, u))
      → ((a : A) (u : Table) → till u ≡ c → Q (k a u))
      → Q (and_then k r)
  after_kept k (ok a, u) h f g = g a u h
  after_kept k (err e, u) h f g = f e u h

module _ {B : Type 0} (Q : Result B × Table → Type 0) where
  pub after_guard :
      (b : Bool) (e : Error) (k : Unit {0} → Action B) (u : Table)
      → Q (err e, u)
      → (b ≡ false → Q (k tt u))
      → Q (and_then k ((if b then err e else ok tt), u))
  after_guard true e k u f g = f
  after_guard false e k u f g = g refl

  pub after_option :
      {A : Type 0} (o : Option A) (e : Error) (k : A → Action B) (u : Table)
      → Q (err e, u)
      → ((a : A) → o ≡ some a → Q (k a u))
      → Q (and_then k (or_throw o e u))
  unfolding or_throw
  after_option none e k u f g = f
  after_option (some a) e k u f g = g a refl

-- A call that returns has brought its amount into the stacks, and it was not negative; one that is
-- refused has brought nothing.
abbrev pub Brought : {A : Type 0} → ℕ → ℤ → Result A × Table → Type 0
Brought before amount (ok a, u) = (stacks u ≡ before + pos_part amount) × (neg_part amount ≡ 0)
Brought before amount (err e, u) = stacks u ≡ before

abbrev pub Sized : Table → Type 0
Sized t = length t.seats ≡ t.config.seats

empty_place :
    (seats : Seats) (j : ℕ)
    → j < length seats
    → is_empty (seat_at seats j) ≡ true
    → get_elem? seats j ≡ some none
empty_place [] j h y = absurd (omega arith)
empty_place (none ∷ seats) zero h y = refl
empty_place (some p ∷ seats) zero h y = cc
empty_place (s ∷ seats) (suc j) h y = empty_place seats j (omega arith) y

in_range :
    (buy : ℤ) (low high : ℕ)
    → (ltb_ℤ buy (pos low) || ltb_ℤ (pos high) buy) ≡ false
    → neg_part buy ≡ 0
in_range (pos n) low high h = refl
in_range (negsuc n) low high h = absurd (ground (arith, h))

free-inside :
    (t : Table) (o : Option ℕ) {i : ℕ}
    → Sized t
    → free_seat t o ≡ some i
    → get_elem? t.seats i ≡ some none
free-inside t none z e = cc
free-inside t (some j) z e = elim (Bool-cases (leb t.config.seats j)) [
  | inl past ↦ absurd (ground (arith, past, e))
  | inr inside ↦ elim (Bool-cases (is_empty (seat_at t.seats j))) [
    | inl y ↦
        let place = empty_place t.seats j (ground (arith, inside, z)) y in
        ground (arith, inside, y, e, place)
    | inr n ↦ absurd (ground (arith, inside, n, e))
  ]
]

-- Where the table has a seat for each that its rules name, a call of sit that returns has brought its
-- buy-in, which is not negative, into the stacks, and one that is refused has changed none of them.
pub sit-Brought :
    (id : ℕ) (name : String) (buy : ℤ) (seat : Option ℤ) (t : Table)
    → Sized t
    → Brought (stacks t) buy (sit id name buy seat t)
unfolding sit running
sit-Brought id name buy seat t z =
    let Q = Brought (stacks t) buy in
    after_kept Q (till t) _ (assert_idle t) (assert_idle-till.at t) (λ e u h. ap (λ c. c.0) h)
      (λ a u h.
        let base : stacks u ≡ stacks t = ap (λ c. c.0) h in
        after_guard Q (found (find_seat u.seats id)) already_seated _ u base (λ new.
          after_guard Q (ltb_ℤ buy (pos u.config.min_buy_in) || ltb_ℤ (pos u.config.max_buy_in) buy)
            bad_buy_in _ u base
            (λ fits.
              after_option Q (free_seat u (chosen_seat u.seats seat)) no_empty_seat _ u base (λ i e.
                let sized : Sized u = ap (λ c. c.1) h ∙ z ∙ sym (ap (λ c. c.2.seats) h) in
                let place = free-inside u (chosen_seat u.seats seat) sized e in
                (
                  omega (
                    arith,
                    base,
                    sum_of-set (held stack_of) u.seats i (some (new_seat id name (pos_part buy)))
                        place,
                  ),
                  in_range buy u.config.min_buy_in u.config.max_buy_in fits,
                )))))

-- A cash-out that returns has taken what it returns, and one that is refused nothing.
abbrev pub Paid : ℕ → Result ℕ × Table → Type 0
Paid before (ok n, u) = stacks u + n ≡ before
Paid before (err e, u) = stacks u ≡ before

seat_found :
    (seats : Seats) (i : ℕ) {p : Seat}
    → seat_at seats i ≡ some p
    → get_elem? seats i ≡ some (some p)
seat_found seats i e = ground arith

pub cash_out-Paid : (id : ℕ) (t : Table) → Paid (stacks t) (cash_out id t)
unfolding cash_out running require_seat seat_ref
cash_out-Paid id t =
    let Q = Paid (stacks t) in
    after_kept Q (till t) _ (assert_idle t) (assert_idle-till.at t) (λ e u h. ap (λ c. c.0) h)
      (λ a u h.
        let base : stacks u ≡ stacks t = ap (λ c. c.0) h in
        after_option Q (find_seat u.seats id) not_seated _ u base (λ i e.
          after_option Q (seat_at u.seats i) null_access _ u base (λ p at.
            omega
              (arith, base, sum_of-set (held stack_of) u.seats i none (seat_found u.seats i at)))))

raised :
    (n : ℕ) (amount : ℤ)
    → leb_ℤ amount (pos 0) ≡ false
    → (pos_part (pos n +ℤ amount) ≡ n + pos_part amount) × (neg_part amount ≡ 0)
unfolding ◌+ℤ◌
raised n (pos m) h = (ground arith, refl)
raised n (negsuc m) h = absurd (ground (arith, h))

pub add_on-Brought :
    (id : ℕ) (amount : ℤ) (t : Table) → Brought (stacks t) amount (add_on id amount t)
unfolding add_on running require_seat seat_ref update_seat
add_on-Brought id amount t =
    let Q = Brought (stacks t) amount in
    after_kept Q (till t) _ (assert_idle t) (assert_idle-till.at t) (λ e u h. ap (λ c. c.0) h)
      (λ a u h.
        let base : stacks u ≡ stacks t = ap (λ c. c.0) h in
        after_option Q (find_seat u.seats id) not_seated _ u base (λ i e.
          after_option Q (seat_at u.seats i) null_access _ u base (λ p at.
            after_guard Q (ltb_ℤ (pos u.config.max_buy_in) (pos p.stack +ℤ amount)) add_on_too_large
              _ u base
              (λ fits.
                after_guard Q (leb_ℤ amount (pos 0)) add_on_not_positive _ u base (λ positive.
                  let (sum, whole) = raised p.stack amount positive in
                  let up = λ (s : Seat). record s { stack = pos_part (pos p.stack +ℤ amount) } in
                  (omega (arith, base, count-with_seat stack_of i up u at, sum), whole))))))
