-- ===== src/Server/Flight.antt =====
-- services/game-server/src: the chips of requests that interleave at their awaits.
use Prim.Native.String.{String}
use vr_poker.Prelude.{
  ℕ, zero, suc, ◌+◌, ◌≡◌, inl, inr, refl, ap, sym, ◌∙◌, Option, none, some, List, [], ◌∷◌, arith,
  ◌==◌, ltb, Bool-cases, Option-cases, All,
}
use vr_poker.Prelude.Maps.{lookup_in, write_in, sum_of-write_in}
use vr_poker.Prelude.Int.{ℤ, pos, pos_part, neg_part, ◌+ℤ◌, ◌-ℤ◌, int_laws}
use vr_poker.Ledger.Entries.{Fallible, done, failed}
use vr_poker.Table.State.{Table}
use vr_poker.Table.Monad.{Result, ok, err}
use vr_poker.Table.Credit.{stacks}
use vr_poker.Table.Play.{sit, add_on, cash_out}
use vr_poker.Table.Bank.{Sized, Brought, Paid, sit-Brought, add_on-Brought, cash_out-Paid}
use vr_poker.Table.Shape.{shape, sit-shape, add_on-shape, cash_out-shape}
use vr_poker.Server.Port.{ChipLedgerPort, Posts}
use vr_poker.Server.Balance.{on_tables, same_chips}
use vr_poker.Server.Interleaved.{
  Job, Event, System, to_buy_in, to_sit, to_add_on, to_refund, to_credit, asks_seat, asks_add_on,
  asks_leave, goes_on, take_job, debited, asked, repaid, left_with, proceed, happens, plays_out,
}

-- A measure of the whole ledger that every posting moves by its amount, or not at all.
pub record IsTotal {L : Type 0} (port : ChipLedgerPort L) (total : L → ℤ) : Type 0 where
  pub buy_in_total :
      (player table : ℕ) (amount : ℤ) (l : L)
      → Posts total l (pos 0 -ℤ amount) (port.buy_in player amount table l)
  pub add_on_total :
      (player table : ℕ) (amount : ℤ) (l : L)
      → Posts total l (pos 0 -ℤ amount) (port.add_on player amount table l)
  pub cash_out_total :
      (player table : ℕ) (amount : ℤ) (l : L)
      → Posts total l amount (port.cash_out player amount table l)

-- the chips that a job holds
abbrev pub held_by : Job → ℤ
held_by (to_buy_in id player name buy seat) = pos 0
held_by (to_sit id player name buy seat) = buy
held_by (to_add_on id player amount) = amount
held_by (to_refund id player amount) = amount
held_by (to_credit id player chips) = pos chips

abbrev pub in_flight : List Job → ℤ
in_flight [] = pos 0
in_flight (j ∷ js) = held_by j +ℤ in_flight js

-- All chips: of the ledger, on the tables, in flight, and lost.
abbrev pub all_chips : {L : Type 0} → (L → ℤ) → System L → ℤ
all_chips total s = (total s.ledger +ℤ pos (on_tables s.tables)) +ℤ (in_flight s.jobs +ℤ s.lost)

-- What the opening of an account has added to the ledger at an event.
abbrev pub opened_by : {L : Type 0} → ChipLedgerPort L → (L → ℤ) → Event → System L → ℤ
opened_by port total (asks_seat id player name buy seat) s = elim (lookup_in id s.tables) [
  | none ↦ pos 0
  | some t ↦ total (port.ensure_account player (some name) s.ledger).1 -ℤ total s.ledger
]
opened_by port total (asks_add_on id player amount) s = pos 0
opened_by port total (asks_leave id player) s = pos 0
opened_by port total (goes_on n) s = pos 0

-- and over the events, each in the state that it finds
abbrev pub openings : {L : Type 0} → ChipLedgerPort L → (L → ℤ) → List Event → System L → ℤ
openings port total [] s = pos 0
openings port total (e ∷ es) s =
    opened_by port total e s +ℤ openings port total es (happens port e s)

abbrev pub AllSized : List (ℕ × Table) → Type 0
AllSized m = All (λ e. Sized e.1) m

lookup_in-Sized :
    (id : ℕ) (t : Table) (m : List (ℕ × Table)) → AllSized m → lookup_in id m ≡ some t → Sized t
lookup_in-Sized id t [] h e = absurd cc
lookup_in-Sized id t ((j, u) ∷ m) h e = elim (Bool-cases (j == id)) [
  | inl y ↦ let first = rw y at e in let same : u ≡ t = cc in rw (sym same) h.0
  | inr n ↦ lookup_in-Sized id t m h.1 (rw n at e)
]

write_in-Sized :
    (id : ℕ) (u : Table) (m : List (ℕ × Table)) → AllSized m → Sized u → AllSized (write_in id u m)
write_in-Sized id u [] h z = (z, tt)
write_in-Sized id u ((j, v) ∷ m) h z = elim (Bool-cases (j == id)) [
  | inl y ↦ rw y (z, h.1)
  | inr n ↦ rw n (h.0, write_in-Sized id u m h.1 z)
]

keeps_size : (t u : Table) → shape u ≡ shape t → Sized t → Sized u
keeps_size t u h z = ap (λ c. c.0) h ∙ z ∙ sym (ap (λ c. c.1.seats) h)

debit_moves :
    (b c a f x : ℤ) (m : ℕ)
    → c ≡ b +ℤ (pos 0 -ℤ a)
    → (c +ℤ pos m) +ℤ ((a +ℤ f) +ℤ x) ≡ (b +ℤ pos m) +ℤ (f +ℤ x)
debit_moves b c a f x m h = grind (int_laws, h)

open_moves :
    (b c f x : ℤ) (m : ℕ)
    → (c +ℤ pos m) +ℤ ((pos 0 +ℤ f) +ℤ x) ≡ ((b +ℤ pos m) +ℤ (f +ℤ x)) +ℤ (c -ℤ b)
open_moves b c f x m = grind int_laws

refused_moves :
    (b c f x : ℤ) (m : ℕ) → (c +ℤ pos m) +ℤ (f +ℤ x) ≡ ((b +ℤ pos m) +ℤ (f +ℤ x)) +ℤ (c -ℤ b)
refused_moves b c f x m = grind int_laws

nothing_more : (a : ℤ) → a ≡ a +ℤ pos 0
nothing_more a = grind int_laws

summed : (a b c d e : ℤ) → d ≡ e +ℤ c → e ≡ a +ℤ b → d ≡ a +ℤ (b +ℤ c)
summed a b c d e h k = grind (int_laws, h, k)

ask_moves :
    (b a f x : ℤ) (m n : ℕ)
    → n ≡ m + pos_part a
    → neg_part a ≡ 0
    → (b +ℤ pos n) +ℤ (f +ℤ x) ≡ (b +ℤ pos m) +ℤ ((a +ℤ f) +ℤ x)
ask_moves b a f x m n h w = grind (int_laws, h, w)

credit_moves :
    (b c a f x : ℤ) (m : ℕ)
    → c ≡ b +ℤ a
    → (c +ℤ pos m) +ℤ (f +ℤ x) ≡ (b +ℤ pos m) +ℤ ((a +ℤ f) +ℤ x)
credit_moves b c a f x m h = grind (int_laws, h)

loss_moves : (b a f x : ℤ) → b +ℤ (f +ℤ (x +ℤ a)) ≡ b +ℤ ((a +ℤ f) +ℤ x)
loss_moves b a f x = grind int_laws

leave_moves :
    (b f x : ℤ) (m n chips : ℕ)
    → n + chips ≡ m
    → (b +ℤ pos n) +ℤ ((pos chips +ℤ f) +ℤ x) ≡ (b +ℤ pos m) +ℤ (f +ℤ x)
leave_moves b f x m n chips h = grind (int_laws, h)

held_none : (b f x : ℤ) → b +ℤ (f +ℤ x) ≡ b +ℤ ((pos 0 +ℤ f) +ℤ x)
held_none b f x = grind int_laws

swapped : (a b f : ℤ) → a +ℤ (b +ℤ f) ≡ b +ℤ (a +ℤ f)
swapped a b f = grind int_laws

taken :
    (n : ℕ) (js : List Job) (r : Job × List Job)
    → take_job n js ≡ some r
    → in_flight js ≡ held_by r.0 +ℤ in_flight r.1
taken n [] r e = absurd cc
taken zero (j ∷ js) r e = let same : (j, js) ≡ r = cc in ap (λ q. held_by q.0 +ℤ in_flight q.1) same
taken (suc n) (j ∷ js) r e = elim (Option-cases (take_job n js)) [
  | inl q ↦ let none_left = rw q at e in absurd cc
  | inr (q, h) ↦
      let found = rw h at e in
      let same : (q.0, j ∷ q.1) ≡ r = cc in
      ap (λ f. held_by j +ℤ f) (taken n js q h)
      ∙ swapped (held_by j) (held_by q.0) (in_flight q.1)
      ∙ ap (λ q. held_by q.0 +ℤ in_flight q.1) same
]

module _ {L : Type 0} (port : ChipLedgerPort L) (total : L → ℤ) (laws : IsTotal port total) where
  -- the chips of a system that has a job's as well
  abbrev with_job : ℤ → System L → ℤ
  with_job a s = (total s.ledger +ℤ pos (on_tables s.tables)) +ℤ ((a +ℤ in_flight s.jobs) +ℤ s.lost)

  abbrev Keeps : ℤ → System L → Type 0
  Keeps n s = (all_chips total s ≡ n) × AllSized s.tables

  debited-Keeps :
      (job : Job) (s : System L) (r : Fallible (Unit {0}) × L)
      → AllSized s.tables
      → Posts total s.ledger (pos 0 -ℤ held_by job) r
      → Keeps (all_chips total s) (debited job s r)
  debited-Keeps job s (done a, l) z h =
      (debit_moves (total s.ledger) (total l) (held_by job) (in_flight s.jobs) s.lost _ h, z)
  debited-Keeps job s (failed e, l) z h =
      (ap (λ l. (total l +ℤ pos (on_tables s.tables)) +ℤ (in_flight s.jobs +ℤ s.lost)) h, z)

  opened-Keeps :
      (job : Job) (s : System L) (r : Fallible (Unit {0}) × L)
      → AllSized s.tables
      → held_by job ≡ pos 0
      → Keeps (all_chips total s +ℤ (total r.1 -ℤ total s.ledger)) (debited job s r)
  opened-Keeps job s (done a, l) z h = (
    ap (λ n. (total l +ℤ pos (on_tables s.tables)) +ℤ ((n +ℤ in_flight s.jobs) +ℤ s.lost)) h
        ∙ open_moves (total s.ledger) (total l) (in_flight s.jobs) s.lost (on_tables s.tables),
    z,
  )
  opened-Keeps job s (failed e, l) z h =
      (refused_moves (total s.ledger) (total l) (in_flight s.jobs) s.lost _, z)

  asked-Keeps :
      {A : Type 0} (id player : ℕ) (amount : ℤ) (s : System L) (t : Table) (r : Result A × Table)
      → AllSized s.tables
      → lookup_in id s.tables ≡ some t
      → Brought (stacks t) amount r
      → shape r.1 ≡ shape t
      → Keeps (with_job amount s) (asked id player amount s r)
  asked-Keeps id player amount s t (ok a, u) z e b h = (
    ask_moves (total s.ledger) amount (in_flight s.jobs) s.lost (on_tables s.tables)
        (on_tables (write_in id u s.tables))
        (omega (arith, sum_of-write_in stacks id u s.tables e, b.0)) b.1,
    write_in-Sized id u s.tables z (keeps_size t u h (lookup_in-Sized id t s.tables z e)),
  )
  asked-Keeps id player amount s t (err x, u) z e b h = (
    ap (λ n. (total s.ledger +ℤ pos n) +ℤ ((amount +ℤ in_flight s.jobs) +ℤ s.lost))
        (same_chips id t u s.tables e b),
    write_in-Sized id u s.tables z (keeps_size t u h (lookup_in-Sized id t s.tables z e)),
  )

  repaid-Keeps :
      (amount : ℤ) (s : System L) (r : Fallible (Unit {0}) × L)
      → AllSized s.tables
      → Posts total s.ledger amount r
      → Keeps (with_job amount s) (repaid amount s r)
  repaid-Keeps amount s (done a, l) z h =
      (credit_moves (total s.ledger) (total l) amount (in_flight s.jobs) s.lost _ h, z)
  repaid-Keeps amount s (failed e, l) z h = (
    ap (λ l. (total l +ℤ pos (on_tables s.tables)) +ℤ (in_flight s.jobs +ℤ (s.lost +ℤ amount))) h
        ∙ loss_moves (total s.ledger +ℤ pos (on_tables s.tables)) amount (in_flight s.jobs) s.lost,
    z,
  )

  proceed-Keeps :
      (j : Job) (s : System L)
      → AllSized s.tables
      → Keeps (with_job (held_by j) s) (proceed port j s)
  unfolding proceed
  proceed-Keeps (to_buy_in id player name buy seat) s z =
      let (kept, sized) =
        debited-Keeps (to_sit id player name buy seat) s (port.buy_in player buy id s.ledger) z
          (laws.buy_in_total player id buy s.ledger) in
      (
        kept ∙ held_none (total s.ledger +ℤ pos (on_tables s.tables)) (in_flight s.jobs) s.lost,
        sized,
      )
  proceed-Keeps (to_sit id player name buy seat) s z = elim (Option-cases (lookup_in id s.tables)) [
    | inl e ↦ rw (proceed, e) (refl, z)
    | inr (t, e) ↦
        rw (proceed, e)
          (asked-Keeps id player buy s t (sit player name buy seat t) z e
            (sit-Brought player name buy seat t (lookup_in-Sized id t s.tables z e))
            (sit-shape player name buy seat t))
  ]
  proceed-Keeps (to_add_on id player amount) s z = elim (Option-cases (lookup_in id s.tables)) [
    | inl e ↦ rw (proceed, e) (refl, z)
    | inr (t, e) ↦
        rw (proceed, e)
          (asked-Keeps id player amount s t (add_on player amount t) z e
            (add_on-Brought player amount t) (add_on-shape player amount t))
  ]
  proceed-Keeps (to_refund id player amount) s z =
      repaid-Keeps amount s (port.cash_out player amount id s.ledger) z
        (laws.cash_out_total player id amount s.ledger)
  proceed-Keeps (to_credit id player chips) s z =
      repaid-Keeps (pos chips) s (port.cash_out player (pos chips) id s.ledger) z
        (laws.cash_out_total player id (pos chips) s.ledger)

  left-Keeps :
      (id player : ℕ) (s : System L) (t : Table) (r : Result ℕ × Table)
      → AllSized s.tables
      → lookup_in id s.tables ≡ some t
      → Paid (stacks t) r
      → shape r.1 ≡ shape t
      → Keeps (all_chips total s) (left_with id player s r)
  left-Keeps id player s t (err x, u) z e p h = (
    ap (λ n. (total s.ledger +ℤ pos n) +ℤ (in_flight s.jobs +ℤ s.lost))
        (same_chips id t u s.tables e p),
    write_in-Sized id u s.tables z (keeps_size t u h (lookup_in-Sized id t s.tables z e)),
  )
  left-Keeps id player s t (ok chips, u) z e p h =
      let sized =
        write_in-Sized id u s.tables z (keeps_size t u h (lookup_in-Sized id t s.tables z e)) in
      let gone : on_tables (write_in id u s.tables) + chips ≡ on_tables s.tables =
        omega (arith, sum_of-write_in stacks id u s.tables e, p) in
      elim (Bool-cases (ltb 0 chips)) [
        | inl y ↦ rw y (
          leave_moves (total s.ledger) (in_flight s.jobs) s.lost (on_tables s.tables) _ chips gone,
          sized,
        )
        | inr n ↦
            let none_left : chips ≡ 0 = ground (arith, n) in
            rw n (
              ap (λ n. (total s.ledger +ℤ pos n) +ℤ (in_flight s.jobs +ℤ s.lost))
                  (omega (arith, gone, none_left)),
              sized,
            )
      ]

  kept_more : (n : ℤ) (s : System L) → Keeps n s → Keeps (n +ℤ pos 0) s
  kept_more n s (kept, sized) = (kept ∙ nothing_more n, sized)

  -- A request for a seat, at the table that is found for it.
  seat-Keeps :
      (job : Job) (player : ℕ) (name : String) (s : System L)
      → AllSized s.tables
      → held_by job ≡ pos 0
      → (o : Option Table)
      → Keeps
          (all_chips total s +ℤ elim o [
            | none ↦ pos 0
            | some t ↦ total (port.ensure_account player (some name) s.ledger).1 -ℤ total s.ledger
          ])
          (elim o [
            | none ↦ s
            | some t ↦ debited job s (port.ensure_account player (some name) s.ledger)
          ])
  seat-Keeps job player name s z h none = kept_more (all_chips total s) s (refl, z)
  seat-Keeps job player name s z h (some t) =
      opened-Keeps job s (port.ensure_account player (some name) s.ledger) z h

  happens-Keeps :
      (e : Event) (s : System L)
      → AllSized s.tables
      → Keeps (all_chips total s +ℤ opened_by port total e s) (happens port e s)
  unfolding happens
  happens-Keeps (asks_seat id player name buy seat) s z =
      seat-Keeps (to_buy_in id player name buy seat) player name s z refl (lookup_in id s.tables)
  happens-Keeps (asks_add_on id player amount) s z = elim (Option-cases (lookup_in id s.tables)) [
    | inl q ↦ rw (happens, q) (kept_more (all_chips total s) s (refl, z))
    | inr (t, q) ↦
        let r = port.add_on player amount id s.ledger in
        let job = to_add_on id player amount in
        rw (happens, q)
          (kept_more (all_chips total s) (debited job s r)
            (debited-Keeps job s r z (laws.add_on_total player id amount s.ledger)))
  ]
  happens-Keeps (asks_leave id player) s z = elim (Option-cases (lookup_in id s.tables)) [
    | inl q ↦ rw (happens, q) (kept_more (all_chips total s) s (refl, z))
    | inr (t, q) ↦
        rw (happens, q)
          (kept_more (all_chips total s) (left_with id player s (cash_out player t)) (
            left-Keeps id player s t (cash_out player t) z q (cash_out-Paid player t)
              (cash_out-shape player t)))
  ]
  happens-Keeps (goes_on n) s z = elim (Option-cases (take_job n s.jobs)) [
    | inl q ↦ rw (happens, q) (kept_more (all_chips total s) s (refl, z))
    | inr (r, q) ↦
        let after : System L = record s { jobs = r.1 } in
        let (kept, sized) = proceed-Keeps r.0 after z in
        let back =
          ap (λ f. (total s.ledger +ℤ pos (on_tables s.tables)) +ℤ (f +ℤ s.lost))
            (taken n s.jobs r q) in
        rw (happens, q)
          (kept_more (all_chips total s) (proceed port r.0 after) (kept ∙ sym back, sized))
  ]

  -- Requests to take a seat, to add on and to leave, whose numbers are whole, that interleave at their
  -- awaits in any order neither make nor lose chips unseen, where each table has a seat for each that
  -- its rules name: what the ledger owes to all players, what the players at the tables have in front of
  -- them, what is in flight between the two, and what a refused compensation or credit left nowhere add
  -- up to what they did before and what the opening of accounts has given.
  pub plays_out-chips :
      (es : List Event) (s : System L)
      → AllSized s.tables
      → all_chips total (plays_out port es s) ≡ all_chips total s +ℤ openings port total es s
  plays_out-chips [] s z = nothing_more (all_chips total s)
  plays_out-chips (e ∷ es) s z =
      let (kept, sized) = happens-Keeps e s z in
      summed (all_chips total s) (opened_by port total e s)
        (openings port total es (happens port e s)) (all_chips total (plays_out port (e ∷ es) s))
        (all_chips total (happens port e s)) (plays_out-chips es (happens port e s) sized) kept
