-- ===== src/Table/Fuel.antt =====
-- packages/core/src/table.ts: methods that do not run out of streets, whatever the table.
use vr_poker.Prelude.{
  ℕ, zero, suc, ◌≡◌, refl, Bool, true, false, Option, none, some, List, [], ◌∷◌, if◌then◌else◌,
}
use vr_poker.Cards.{Card}
use vr_poker.Pots.{PotShare, Pot}
use vr_poker.Table.State.{Table, Seat, Event, Award, returned}
use vr_poker.Table.Monad.{
  Action, Result, ok, err, Error, pure, throw, or_throw, gets, modify, throw_if, log, skip, ◌>>=◌,
  ◌>>◌, and_then, null_access, deck_exhausted, out_of_streets,
}
use vr_poker.Table.Seats.{seat_ref, update_seat, with_seat}
use vr_poker.Table.Settle.{
  seat_of, give_back, pay_shares, settle_pot, settle_contested, settle_pots, run_showdown,
  award_uncontested, take_back,
}
use vr_poker.Table.Streets.{take_card, burn_card, deal_flop, deal_one, run_out}

-- An error that the source has.
abbrev pub is_source : Error → Bool
is_source out_of_streets = false
is_source _ = true

-- The call returned, or threw an error of the source.
abbrev pub InSource : {A : Type 0} → Result A → Type 0
InSource (ok a) = Unit
InSource (err e) = is_source e ≡ true

pub record Ends {A : Type 0} (m : Action A) : Type 0 where
  pub at : (t : Table) → InSource (m t).0

Ends-and_then :
    {A B : Type 0} (k : A → Action B) (r : Result A × Table)
    → InSource r.0
    → ((a : A) → Ends (k a))
    → InSource (and_then k r).0
Ends-and_then k (ok a, t) h j = (j a).at t
Ends-and_then k (err e, t) h j = h

pub Ends-bind :
    {A B : Type 0} {m : Action A} {k : A → Action B}
    → Ends m
    → ((a : A) → Ends (k a))
    → Ends (m >>= k)
unfolding ◌>>=◌
Ends-bind {m = m} {k = k} h j = record { at = λ t. Ends-and_then k (m t) (h.at t) j }

pub Ends-then : {A B : Type 0} {m : Action A} {k : Action B} → Ends m → Ends k → Ends (m >> k)
unfolding ◌>>◌
Ends-then {m = m} {k = k} h j = record { at = λ t. Ends-and_then (λ _. k) (m t) (h.at t) (λ _. j) }

pub Ends-pure : {A : Type 0} (a : A) → Ends (pure a)
unfolding pure
Ends-pure a = record { at = λ t. tt }

pub Ends-gets : {A : Type 0} (g : Table → A) → Ends (gets g)
unfolding gets
Ends-gets g = record { at = λ t. tt }

pub Ends-modify : (g : Table → Table) → Ends (modify g)
unfolding modify
Ends-modify g = record { at = λ t. tt }

pub Ends-log : (e : Event) → Ends (log e)
unfolding log
Ends-log e = record { at = λ t. tt }

pub Ends-skip : Ends skip
unfolding skip
Ends-skip = record { at = λ t. tt }

pub Ends-if : {A : Type 0} (b : Bool) {m k : Action A} → Ends m → Ends k → Ends (if b then m else k)
Ends-if true h j = h
Ends-if false h j = j

pub Ends-or_throw :
    {A : Type 0} (o : Option A) (e : Error) → is_source e ≡ true → Ends (or_throw o e)
unfolding or_throw
Ends-or_throw none e h = record { at = λ t. h }
Ends-or_throw (some a) e h = record { at = λ t. tt }

pub Ends-throw_if : (b : Bool) (e : Error) → is_source e ≡ true → Ends (throw_if b e)
unfolding throw_if
Ends-throw_if true e h = record { at = λ t. h }
Ends-throw_if false e h = record { at = λ t. tt }

pub Ends-throw : {A : Type 0} (e : Error) → is_source e ≡ true → Ends (throw {A = A} e)
unfolding throw
Ends-throw e h = record { at = λ t. h }

pub Ends-update : (i : ℕ) (g : Seat → Seat) → Ends (update_seat i g)
unfolding update_seat
Ends-update i g = Ends-modify (with_seat i g)

pub ruleset ends_base = (
  Ends-bind, Ends-then, Ends-pure, Ends-gets, Ends-modify, Ends-log, Ends-skip, Ends-if,
  Ends-or_throw, Ends-throw_if, Ends-throw, Ends-update,
)

pub seat_ref-Ends : (i : ℕ) → Ends (seat_ref i)
unfolding seat_ref
seat_ref-Ends i = search ends_base

pub seat_of-Ends : (id : ℕ) → Ends (seat_of id)
unfolding seat_of
seat_of-Ends id = search ends_base

pub ruleset ends_rules = (ends_base, seat_ref-Ends, seat_of-Ends)

give_back-Ends : (logged : Bool) (rs : List PotShare) → Ends (give_back logged rs)
unfolding give_back
give_back-Ends logged [] = Ends-skip
give_back-Ends logged (r ∷ rs) =
    let rest = give_back-Ends logged rs in
    Ends-bind (seat_of-Ends r.player_id) (λ i. Ends-then (Ends-update i (take_back r.amount)) (
      Ends-bind (seat_ref-Ends i)
        (λ s. Ends-then (Ends-if logged (Ends-log (returned r.amount s.name)) Ends-skip) rest)))

pay_shares-Ends : (shares : List PotShare) (awards : List Award) → Ends (pay_shares shares awards)
unfolding pay_shares
pay_shares-Ends [] awards = Ends-pure awards
pay_shares-Ends (s ∷ ss) awards =
    search (ends_rules, λ (l : List Award). pay_shares-Ends ss l) depth 14

settle_pot-Ends :
    (pot : Pot) (ps : List Seat) (awards : List Award) → Ends (settle_pot pot ps awards)
unfolding settle_pot
settle_pot-Ends pot ps awards = search (ends_rules, pay_shares-Ends) depth 10

settle_contested-Ends :
    (pot : Pot) (rest : List Award → ℕ → Action (List Award × ℕ)) (ps : List Seat)
    (awards : List Award) (rake : ℕ)
    → ((more : List Award) (taken : ℕ) → Ends (rest more taken))
    → Ends (settle_contested pot rest ps awards rake)
unfolding settle_contested
settle_contested-Ends pot rest [] awards rake h = h awards rake
settle_contested-Ends pot rest (p ∷ ps) awards rake h =
    search (ends_rules, settle_pot-Ends, h) depth 8

settle_pots-Ends :
    (pots : List Pot) (awards : List Award) (rake : ℕ) → Ends (settle_pots pots awards rake)
unfolding settle_pots
settle_pots-Ends [] awards rake = Ends-pure (awards, rake)
settle_pots-Ends (pot ∷ pots) awards rake =
    Ends-bind (Ends-gets (λ t. t.seats))
      λ seats. settle_contested-Ends pot (settle_pots pots) _ awards rake (settle_pots-Ends pots)

pub run_showdown-Ends : Ends run_showdown
unfolding run_showdown
run_showdown-Ends = search (ends_rules, give_back-Ends, settle_pots-Ends) depth 12

pub award_uncontested-Ends : (i : ℕ) → Ends (award_uncontested i)
unfolding award_uncontested
award_uncontested-Ends i = search (ends_rules, give_back-Ends) depth 16

pub Ends-card :
    {A : Type 0} (cs : List Card) {m : Action A} {k : Card → List Card → Action A}
    → Ends m
    → ((c : Card) (rest : List Card) → Ends (k c rest))
    → Ends (elim cs [ [] ↦ m | c ∷ rest ↦ k c rest ])
Ends-card [] h j = h
Ends-card (c ∷ cs) h j = j c cs

pub take_card-Ends : Ends take_card
unfolding take_card
take_card-Ends = Ends-bind (Ends-gets (λ t. t.deal)) λ deal.
    Ends-bind (Ends-or_throw deal null_access refl)
      λ d. Ends-card d.left (Ends-throw deck_exhausted refl) λ c cs. search ends_rules

burn_card-Ends : Ends burn_card
unfolding burn_card
burn_card-Ends = search (ends_rules, take_card-Ends)

pub deal_flop-Ends : Ends deal_flop
unfolding deal_flop
deal_flop-Ends = search (ends_rules, take_card-Ends, burn_card-Ends) depth 10

pub deal_one-Ends : Ends deal_one
unfolding deal_one
deal_one-Ends = search (ends_rules, take_card-Ends, burn_card-Ends)

pub run_out-Ends : (n : ℕ) → Ends (run_out n)
unfolding run_out
run_out-Ends zero = run_showdown-Ends
run_out-Ends (suc n) = Ends-then deal_one-Ends (run_out-Ends n)
