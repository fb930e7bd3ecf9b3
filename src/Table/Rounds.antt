-- ===== src/Table/Rounds.antt =====
-- packages/core/src/table.ts: methods that start with a known number of rounds to come.
use vr_poker.Prelude.{ℕ, ◌≤◌, ◌≡◌, refl, Bool, true, false}
use vr_poker.Table.State.{Table, Event, Street, preflop, flop, turn}
use vr_poker.Table.Monad.{Action, Result, ok, err, modify, log, ◌>>=◌, ◌>>◌, and_then}
use vr_poker.Table.Chips.{Keeps, keeps_rules}
use vr_poker.Table.Streets.{button_of, next_actor, set_to_act}
use vr_poker.Table.Fuel.{InSource, Ends, ends_rules}

-- How many rounds may still come on a street, this one included.
abbrev pub rounds : Street → ℕ
rounds preflop = 4
rounds flop = 3
rounds turn = 2
rounds _ = 1

abbrev pub street_of : Table → Street
street_of t = t.street

-- The method runs out of no street when it starts with `n` rounds or fewer to come.
pub record EndsIn (n : ℕ) {A : Type 0} (m : Action A) : Type 0 where
  pub at : (t : Table) → rounds t.street ≤ n → InSource (m t).0

pub EndsIn-Ends : {n : ℕ} {A : Type 0} {m : Action A} → Ends m → EndsIn n m
EndsIn-Ends h = record { at = λ t le. h.at t }

EndsIn-and_then :
    {n : ℕ} {A B : Type 0} (k : A → Action B) (r : Result A × Table) (s : Street)
    → InSource r.0
    → r.1.street ≡ s
    → rounds s ≤ n
    → ((a : A) → EndsIn n (k a))
    → InSource (and_then k r).0
EndsIn-and_then k (ok a, t) s h e le j = (j a).at t (rw e le)
EndsIn-and_then k (err x, t) s h e le j = h

pub EndsIn-bind :
    {n : ℕ} {A B : Type 0} {m : Action A} {k : A → Action B}
    → Ends m
    → Keeps street_of m
    → ((a : A) → EndsIn n (k a))
    → EndsIn n (m >>= k)
unfolding ◌>>=◌
EndsIn-bind {m = m} {k = k} h s j = record {
  at = λ t le. EndsIn-and_then k (m t) t.street (h.at t) (s.at t) le j;
}

pub EndsIn-then :
    {n : ℕ} {A B : Type 0} {m : Action A} {k : Action B}
    → Ends m
    → Keeps street_of m
    → EndsIn n k
    → EndsIn n (m >> k)
unfolding ◌>>◌
EndsIn-then {m = m} {k = k} h s j = record {
  at = λ t le. EndsIn-and_then (λ _. k) (m t) t.street (h.at t) (s.at t) le (λ _. j);
}

pub EndsIn-choice :
    {n : ℕ} {A : Type 0} (b : Bool) {m k : Action A}
    → EndsIn n m
    → EndsIn n k
    → EndsIn n (elim b [ true ↦ m | false ↦ k ])
EndsIn-choice true h j = h
EndsIn-choice false h j = j

-- Writes that leave the street.
pub set_to_act-street : (i : ℕ) → Keeps street_of (set_to_act i)
unfolding set_to_act modify
set_to_act-street i = record { at = λ t. refl }

pub log-street : (e : Event) → Keeps street_of (log e)
unfolding log
log-street e = record { at = λ t. refl }

pub next_actor-street : (i : ℕ) → Keeps street_of (next_actor i)
unfolding next_actor
next_actor-street i = search keeps_rules

pub next_actor-Ends : (i : ℕ) → Ends (next_actor i)
unfolding next_actor
next_actor-Ends i = search ends_rules

pub set_to_act-Ends : (i : ℕ) → Ends (set_to_act i)
unfolding set_to_act
set_to_act-Ends i = search ends_rules

pub button_of-street : Keeps street_of button_of
unfolding button_of
button_of-street = search keeps_rules

pub button_of-Ends : Ends button_of
unfolding button_of
button_of-Ends = search ends_rules
