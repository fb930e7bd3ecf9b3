-- ===== src/Table/Showdown.antt =====
-- packages/core/src/table.ts: the loop of `showdown` over the pots, and what it pays out.
use mathlib.Core.Path.{subst}
use vr_poker.Prelude.{
  ℕ, ◌+◌, ◌≡◌, ◌≢◌, inl, inr, refl, ap, sym, ◌∙◌, true, not, none, some, List, [], ◌∷◌, arith,
  Option-cases, if◌then◌else◌, Bool-cases, find_index, All, member, ltb, ◌==◌, ◌&&◌,
}
use vr_poker.Prelude.Sums.{sum_of}
use vr_poker.Pots.{Pot, Raked, take_rake, return_uncalled, build_pots}
use vr_poker.Pots.Uncalled.{amount_of}
use vr_poker.Pots.Owned.{Owns}
use vr_poker.Table.State.{Table, Seat, Award, showdown, raked}
use vr_poker.Table.Monad.{Action, Result, ok, err, and_then, running}
use vr_poker.Table.Seats.{Seats, seat_at, find_seat, is_player}
use vr_poker.Table.Settle.{
  give_back, settle_pot, settle_contested, settle_pots, raked_of, contenders_of, contributions,
  run_showdown,
}
use vr_poker.Table.Chips.{Keeps, Keeps-then, Keeps-if, Keeps-skip, Keeps-modify}
use vr_poker.Table.Credit.{stacks, stack_of, Ensures, give_back-Adds, stack_log-Keeps}
use vr_poker.Table.Payout.{Setting, setting, settle_pot-setting, settle_pot-paid, give_back-setting}

module _ (q : ℕ) where
  Ensures-next :
      {A B : Type 0} (Q : A → Table → Type 0) (P : B → Table → Type 0) (k : A → Action B)
      → (r : Result A × Table) (c : Setting) → Ensures Q r
      → setting q r.1 ≡ c
      → ((a : A) (u : Table) → Q a u → setting q u ≡ c → Ensures P (k a u))
      → Ensures P (and_then k r)
  Ensures-next Q P k (ok a, u) c h e j = j a u h e
  Ensures-next Q P k (err x, u) c h e j = tt

abbrev pub raked_of_setting : Setting → ℕ → Raked
raked_of_setting s n =
    if not (s.1.no_flop_no_rake && not s.2)
    then take_rake n s.1.rake_percent s.1.rake_cap
    else record { net = n; rake = 0 }

raked-setting :
    (q : ℕ) (t u : Table) (n : ℕ) → setting q u ≡ setting q t → raked_of u n ≡ raked_of t n
raked-setting q t u n e = ap (λ s. raked_of_setting s n) e

found_at :
    (q : ℕ) (seats : Seats) {i : ℕ}
    → find_index (is_player q) seats ≡ some i
    → (p : Seat) × (seat_at seats i ≡ some p)
found_at q [] e = cc
found_at q (none ∷ seats) {i} e = elim (Option-cases (find_index (is_player q) seats)) [
  | inl n ↦ absurd (ground arith)
  | inr (j, f) ↦ let (p, stands) = found_at q seats f in (p, ground (arith, stands))
]
found_at q (some p ∷ seats) {i} e = elim (Bool-cases (p.player_id == q)) [
  | inl y ↦ (p, ground arith)
  | inr n ↦ elim (Option-cases (find_index (is_player q) seats)) [
    | inl none_later ↦ absurd (ground arith)
    | inr (j, f) ↦ let (p', stands) = found_at q seats f in (p', ground (arith, stands))
  ]
]

has_contender :
    (q : ℕ) (seats : Seats) (ids : List ℕ) {i : ℕ} {p : Seat}
    → member q ids ≡ true
    → find_seat seats q ≡ some i
    → seat_at seats i ≡ some p
    → contenders_of seats ids ≢ []
has_contender q seats [] m e at = cc
has_contender q seats (id ∷ ids) m e at = elim (Bool-cases (id == q)) [
  | inl y ↦ ground arith
  | inr n ↦ ground (arith, has_contender q seats ids (rw n at m) e at)
]

not_empty {ℓ} : {A : Type ℓ} (xs : List A) → xs ≢ [] → (y : A) × (ys : List A) × (xs ≡ y ∷ ys)
not_empty [] h = absurd (h refl)
not_empty (y ∷ ys) h = (y, ys, refl)

-- What the rake leaves of the pots.
abbrev pub nets : Setting → List Pot → ℕ
nets s = sum_of (λ pot. (raked_of_setting s pot.amount).net)

contested :
    (q : ℕ) (pot : Pot) (rest : List Award → ℕ → Action (List Award × ℕ)) (p : Seat)
    (ps : List Seat) (awards : List Award) (rake n : ℕ) (t : Table)
    → ((more : List Award) (taken : ℕ) (u : Table)
        → setting q u ≡ setting q t
        → Ensures (λ _ v. stacks v ≡ stacks u + n) (rest more taken u))
    → Ensures
        (λ _ v. stacks v ≡ stacks t + ((raked_of t pot.amount).net + n))
        (settle_contested pot rest (p ∷ ps) awards rake t)
unfolding settle_contested running
contested q pot rest p ps awards rake n t h =
    let net = (raked_of t pot.amount).net in
    Ensures-next q (λ (_ : List Award) u. stacks u ≡ stacks t + net)
      (λ (_ : List Award × ℕ) v. stacks v ≡ stacks t + (net + n)) _
      (settle_pot pot (p ∷ ps) awards t) (setting q t) (settle_pot-paid pot p ps awards t)
      ((settle_pot-setting q pot (p ∷ ps) awards).at t)
      (λ more u paid same.
        let taken = rake + (raked_of u pot.amount).rake in
        subst (λ k. Ensures (λ _ v. stacks v ≡ k) (rest more taken u)) (omega (arith, paid))
          (h more taken u same))

-- Where player `q` is seated and eligible for every pot, the loop over the pots pays out what the
-- rake leaves of each of them.
settle_pots-paid :
    (q : ℕ) (pots : List Pot) (awards : List Award) (rake i : ℕ) (t : Table)
    → All (Owns q) pots
    → find_seat t.seats q ≡ some i
    → Ensures
        (λ _ v. stacks v ≡ stacks t + nets (setting q t) pots)
        (settle_pots pots awards rake t)
unfolding settle_pots running
settle_pots-paid q [] awards rake i t o h = omega arith
settle_pots-paid q (pot ∷ pots) awards rake i t o h =
    let (p, stands) = found_at q t.seats (unfold find_seat in h) in
    let (y, ys, e) =
      not_empty (contenders_of t.seats pot.eligible)
        (has_contender q t.seats pot.eligible o.0 h stands) in
    subst
      (λ cs.
        Ensures (λ _ v. stacks v ≡ stacks t + nets (setting q t) (pot ∷ pots))
          (settle_contested pot (settle_pots pots) cs awards rake t))
      (sym e)
      (contested q pot (settle_pots pots) y ys awards rake (nets (setting q t) pots) t
        (λ more taken u same.
          subst
            (λ s.
              Ensures (λ _ v. stacks v ≡ stacks u + nets s pots) (settle_pots pots more taken u))
            same (settle_pots-paid q pots more taken i u o.1 (ap (λ s. s.0) same ∙ h))))

tail-Keeps :
    {A B : Type 0} (n : ℕ) (k : A → Action B) (r : Result A × Table)
    → ((a : A) → Keeps stacks (k a))
    → Ensures (λ _ u. stacks u ≡ n) r
    → Ensures (λ _ u. stacks u ≡ n) (and_then k r)
tail-Keeps n k (ok a, u) h e = kept (k a u) ((h a).at u ∙ e)
  where
    kept : {B : Type 0} (r : Result B × Table) → stacks r.1 ≡ n → Ensures (λ _ u. stacks u ≡ n) r
    kept (ok b, v) e = e
    kept (err x, v) e = tt
tail-Keeps n k (err x, u) h e = tt

-- The showdown of contributions of which player `q` owns every pot.
pub showdown_pays :
    (q i : ℕ) (t : Table)
    → All (Owns q) (build_pots (return_uncalled (contributions t.seats)).1)
    → find_seat t.seats q ≡ some i
    → Ensures
        (λ _ u.
          stacks u
          ≡ stacks t
            + sum_of amount_of (return_uncalled (contributions t.seats)).0
            + nets (setting q t) (build_pots (return_uncalled (contributions t.seats)).1))
        (run_showdown t)
unfolding run_showdown running
showdown_pays q i t o h =
    let (shares, after) = return_uncalled (contributions t.seats) in
    let t' = record t { street = showdown; to_act_seat = none } in
    let total = stacks t + sum_of amount_of shares + nets (setting q t) (build_pots after) in
    Ensures-next q (λ (_ : Unit {0}) u. stacks u ≡ stacks t + sum_of amount_of shares)
      (λ (_ : Unit {0}) u. stacks u ≡ total) _ (give_back true shares t') (setting q t)
      ((give_back-Adds true shares).at t') ((give_back-setting q true shares).at t')
      (λ _ u paid same.
        tail-Keeps total _ (settle_pots (build_pots after) [] 0 u)
          (λ r.
            Keeps-then (Keeps-if (ltb 0 r.1) (stack_log-Keeps (raked r.1)) Keeps-skip)
              (Keeps-modify stack_of _ (λ t. refl)))
          (subst (λ n. Ensures (λ _ v. stacks v ≡ n) (settle_pots (build_pots after) [] 0 u))
            (ap (λ s. stacks u + nets s (build_pots after)) same ∙ omega (arith, paid))
            (settle_pots-paid q (build_pots after) [] 0 i u o (ap (λ s. s.0) same ∙ h))))
