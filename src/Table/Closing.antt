-- ===== src/Table/Closing.antt =====
-- packages/core/src/table.ts: `skipAllInsAndMaybeClose`, `beginStreet` and
-- `nextStreetOrShowdown` need no more rounds than their street has.
use vr_poker.Prelude.{ℕ, zero, suc, ◌≤◌, ◌≡◌, refl, Bool, true, false, not, ◌||◌, ◌&&◌, arith}
use vr_poker.Table.State.{
  Table, Street, waiting, dealing, preflop, flop, turn, river, showdown, payout, begins,
}
use vr_poker.Table.Monad.{
  Action, Result, ok, err, pure, gets, modify, skip, ◌>>=◌, ◌>>◌, and_then, null_access,
}
use vr_poker.Table.Chips.{Keeps, Keeps-gets, Keeps-or_throw}
use vr_poker.Table.Legal.{is_betting}
use vr_poker.Table.Betting.{betting_closed}
use vr_poker.Table.Streets.{
  skip_loop, skip_all_ins, begin_street, after_street, next_street, can_act, is_some, all_in_runout,
}
use vr_poker.Table.Fuel.{
  is_source, InSource, Ends, Ends-then, Ends-gets, Ends-modify, Ends-or_throw, Ends-skip, Ends-log,
  run_showdown-Ends, deal_flop-Ends, deal_one-Ends, run_out-Ends,
}
use vr_poker.Table.Rounds.{
  rounds, street_of, EndsIn, EndsIn-Ends, EndsIn-bind, EndsIn-then, EndsIn-choice,
  set_to_act-street, log-street, next_actor-street, next_actor-Ends, set_to_act-Ends,
  button_of-street, button_of-Ends,
}

-- The loop of `skipAllInsAndMaybeClose` has returned, or the street is still `s`.
abbrev Looped : Street → Result Bool × Table → Type 0
Looped s (ok true, u) = Unit
Looped s (ok false, u) = u.street ≡ s
Looped s (err e, u) = is_source e ≡ true

record Loops (n : ℕ) (m : Action Bool) : Type 0 where
  at : (t : Table) → rounds t.street ≤ n → Looped t.street (m t)

Loops-and_then :
    {n : ℕ} {A : Type 0} (k : A → Action Bool) (r : Result A × Table) (s : Street)
    → InSource r.0
    → r.1.street ≡ s
    → rounds s ≤ n
    → ((a : A) → Loops n (k a))
    → Looped s (and_then k r)
Loops-and_then k (ok a, t) s h e le j = rw (← e) ((j a).at t (rw e le))
Loops-and_then k (err x, t) s h e le j = h

Loops-bind :
    {n : ℕ} {A : Type 0} {m : Action A} {k : A → Action Bool}
    → Ends m
    → Keeps street_of m
    → ((a : A) → Loops n (k a))
    → Loops n (m >>= k)
unfolding ◌>>=◌
Loops-bind {m = m} {k = k} h s j = record {
  at = λ t le. Loops-and_then k (m t) t.street (h.at t) (s.at t) le j;
}

Loops-then :
    {n : ℕ} {A : Type 0} {m : Action A} {k : Action Bool}
    → Ends m
    → Keeps street_of m
    → Loops n k
    → Loops n (m >> k)
unfolding ◌>>◌
Loops-then {m = m} {k = k} h s j = record {
  at = λ t le. Loops-and_then (λ _. k) (m t) t.street (h.at t) (s.at t) le (λ _. j);
}

Loops-choice :
    {n : ℕ} (b : Bool) {m k : Action Bool}
    → Loops n m
    → Loops n k
    → Loops n (elim b [ true ↦ m | false ↦ k ])
Loops-choice true h j = h
Loops-choice false h j = j

Loops-false : {n : ℕ} → Loops n (pure false)
unfolding pure
Loops-false = record { at = λ t le. refl }

Loops-true : {n : ℕ} {m : Action (Unit {0})} → EndsIn n m → Loops n (m >> pure true)
unfolding ◌>>◌ pure
Loops-true {m = m} h = record { at = λ t le. returned t.street (m t) (h.at t le) }
  where
    returned :
        (s : Street) (r : Result (Unit {0}) × Table)
        → InSource r.0
        → Looped s (and_then (λ _. pure true) r)
    returned s (ok a, u) h = tt
    returned s (err e, u) h = h

abbrev closing : Action (Unit {0}) → Bool → Action (Unit {0})
closing next b = elim b [ true ↦ next | false ↦ skip ]

closing-InSource :
    (next : Action (Unit {0})) (b : Bool) (u : Table)
    → InSource (next u).0
    → InSource (closing next b u).0
unfolding skip
closing-InSource next true u h = h
closing-InSource next false u h = tt

module _ {n : ℕ} {next : Action (Unit {0})} (ends : EndsIn n next) where
  skip_loop-Loops : (left : ℕ) → Loops n (skip_loop next left)
  unfolding skip_loop
  skip_loop-Loops zero = Loops-false
  skip_loop-Loops (suc left) =
      let again = skip_loop-Loops left in
      Loops-bind (Ends-gets _) (Keeps-gets _) (λ to_act.
        Loops-bind (Ends-or_throw to_act null_access refl) (Keeps-or_throw to_act null_access) (λ i.
          Loops-bind (Ends-gets _) (Keeps-gets _) (λ p.
            Loops-bind (Ends-gets _) (Keeps-gets _) (λ closed.
              Loops-choice (can_act p) Loops-false (
                Loops-choice closed (Loops-true ends) (
                  Loops-bind (next_actor-Ends i) (next_actor-street i)
                    (λ j. Loops-then (set_to_act-Ends j) (set_to_act-street j) again)))))))

  -- The method closes the street after its loop only where the loop has not.
  after_loop :
      (m : Action Bool) (f : Table → Bool)
      → Loops n m
      → EndsIn n (m >>= (λ done. gets f >>= (λ closed. closing next (not done && closed))))
  unfolding ◌>>=◌ gets skip
  after_loop m f h = record { at = λ t le. go t.street (m t) (h.at t le) le }
    where
      go :
          (s : Street) (r : Result Bool × Table)
          → Looped s r
          → rounds s ≤ n
          → InSource (and_then (λ done u. closing next (not done && f u) u) r).0
      go s (ok true, u) h le = tt
      go s (ok false, u) h le = closing-InSource next (f u) u (ends.at u (rw h le))
      go s (err e, u) h le = h

  skip_all_ins-EndsIn : EndsIn n (skip_all_ins next)
  unfolding skip_all_ins
  skip_all_ins-EndsIn = EndsIn-bind (Ends-gets _) (Keeps-gets _) (λ street.
      EndsIn-bind (Ends-gets _) (Keeps-gets _) (λ to_act.
        EndsIn-choice (not (is_betting street) || not (is_some to_act)) (EndsIn-Ends Ends-skip) (
          EndsIn-bind (Ends-gets _) (Keeps-gets _)
            (λ count. after_loop (skip_loop next count) betting_closed (skip_loop-Loops count)))))

-- A write of the street that comes, whatever the street was.
Ends-written :
    {n : ℕ} (g : Table → Table) {k : Action (Unit {0})}
    → ((t : Table) → rounds (g t).street ≤ n)
    → EndsIn n k
    → Ends (modify g >> k)
unfolding ◌>>◌ modify
Ends-written g {k} le h = record { at = λ t. h.at (g t) (le t) }

begin_street-Ends :
    {n : ℕ} {next : Action (Unit {0})} (s : Street)
    → EndsIn n next
    → rounds s ≤ n
    → Ends (begin_street next s)
unfolding begin_street
begin_street-Ends {n} {next} s h le =
    Ends-written _ (λ t. le)
      (EndsIn-bind button_of-Ends button_of-street (λ button.
        EndsIn-bind (next_actor-Ends button) (next_actor-street button) (λ first.
          EndsIn-then (set_to_act-Ends first) (set_to_act-street first) (
            EndsIn-bind (Ends-gets _) (Keeps-gets _) (λ board.
              EndsIn-then (Ends-log (begins s board)) (log-street (begins s board))
                (skip_all_ins-EndsIn h))))))

pub Ends-choice :
    {A : Type 0} (b : Bool) {m k : Action A}
    → Ends m
    → Ends k
    → Ends (elim b [ true ↦ m | false ↦ k ])
Ends-choice true h j = h
Ends-choice false h j = j

after_street-Ends :
    {n : ℕ} {next : Action (Unit {0})} (s : Street) (runout : Bool)
    → EndsIn n next
    → rounds s ≤ suc n
    → Ends (after_street next s runout)
unfolding after_street
after_street-Ends preflop runout h le = Ends-then deal_flop-Ends (
    Ends-then (Ends-modify _)
      (Ends-choice runout (run_out-Ends 2) (begin_street-Ends flop h (omega arith))))
after_street-Ends flop runout h le =
    Ends-then deal_one-Ends
      (Ends-choice runout (run_out-Ends 1) (begin_street-Ends turn h (omega arith)))
after_street-Ends turn runout h le =
    Ends-then deal_one-Ends
      (Ends-choice runout (run_out-Ends 0) (begin_street-Ends river h (omega arith)))
after_street-Ends river runout h le = run_showdown-Ends
after_street-Ends waiting runout h le = run_showdown-Ends
after_street-Ends dealing runout h le = run_showdown-Ends
after_street-Ends showdown runout h le = run_showdown-Ends
after_street-Ends payout runout h le = run_showdown-Ends

one_round : (s : Street) → (1 ≤ rounds s) × (rounds s ≤ 4)
one_round preflop = (omega arith, omega arith)
one_round flop = (omega arith, omega arith)
one_round turn = (omega arith, omega arith)
one_round river = (omega arith, omega arith)
one_round waiting = (omega arith, omega arith)
one_round dealing = (omega arith, omega arith)
one_round showdown = (omega arith, omega arith)
one_round payout = (omega arith, omega arith)

next_street-EndsIn : (n : ℕ) → EndsIn n (next_street n)
unfolding next_street
next_street-EndsIn zero = record { at = λ t le. absurd (omega (arith, (one_round t.street).0)) }
next_street-EndsIn (suc n) = record {
  at = λ t le. (after_street-Ends t.street (all_in_runout t) (next_street-EndsIn n) le).at t;
}

pub next_street-Ends : Ends (next_street 4)
next_street-Ends = record { at = λ t. (next_street-EndsIn 4).at t (one_round t.street).1 }

pub skip_all_ins-Ends : Ends (skip_all_ins (next_street 4))
skip_all_ins-Ends = record {
  at = λ t. (skip_all_ins-EndsIn (next_street-EndsIn 4)).at t (one_round t.street).1;
}
