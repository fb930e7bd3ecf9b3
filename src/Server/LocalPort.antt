-- ===== src/Server/LocalPort.antt =====
-- services/game-server/src/ledger-port.ts: `localChipLedgerPort`, the port of a ledger in memory.
use Prim.Native.String.{String}
use mathlib.Core.Path.{subst}
use vr_poker.Prelude.{
  ℕ, suc, ◌<◌, ◌≡◌, refl, ap, Bool, true, false, ◌&&◌, Option, none, some, [], ◌∷◌, ◌++◌, arith,
  if◌then◌else◌, ◌==◌, Bool-cases, inl, inr,
}
use vr_poker.Prelude.Int.{ℤ, pos, negsuc, ◌+ℤ◌, ◌-ℤ◌, int_laws}
use vr_poker.Ledger.Entries.{
  LedgerEntry, LedgerReason, Fallible, done, failed, After, not_a_non_zero_integer,
  insufficient_chips, seed_must_credit, seed, buy_in, add_on, cash_out,
}
use vr_poker.Ledger.Chips.{
  ChipLedger, append, balance, history, post_buy_in, post_add_on, post_cash_out, is_zero,
  is_negative, is_seed, pushed,
}
use vr_poker.Ledger.Balances.{IsSolvent, append_balances, append-IsSolvent}
use vr_poker.Ledger.Store.{is_empty_list}
use vr_poker.Server.Port.{ChipLedgerPort, IsPort, Posts}

abbrev pub posted :
    ChipLedger → Fallible (LedgerEntry × ChipLedger) → Fallible (Unit {0}) × ChipLedger
posted l (done r) = (done tt, r.1)
posted l (failed e) = (failed e, l)

-- the entry that opens an account
abbrev pub opening : String → ℕ → Option String → ChipLedger → Fallible (LedgerEntry × ChipLedger)
opening now player name l =
    append now player (some (pos 100_000)) seed (some (elim name [ none ↦ "welcome" | some n ↦ n ]))
      l

-- the account of a player without entries is opened with 100,000 chips
unfoldable pub open_account :
    String → ℕ → Option String → ChipLedger → Fallible (Unit {0}) × ChipLedger
unfolding append history
open_account now player name l =
    if is_empty_list (history player l) then posted l (opening now player name l) else (done tt, l)

-- The reference of an entry is the text of the table's id.
abbrev pub local_port : String → (ℕ → String) → ChipLedgerPort ChipLedger
local_port now text_of = record {
  balance = λ player l. done (balance player l);
  history = λ player l. done (history player l);
  holds = balance;
  ensure_account = open_account now;
  buy_in =
      λ player amount table l. posted l (post_buy_in now player (some amount) (text_of table) l);
  add_on =
      λ player amount table l. posted l (post_add_on now player (some amount) (text_of table) l);
  cash_out =
      λ player amount table l. posted l (post_cash_out now player (some amount) (text_of table) l);
}

not_next : (n : ℕ) → (n == suc n) ≡ false
not_next n = ground arith

posted-Posts :
    (now : String) (user : ℕ) (amount : ℤ) (reason : LedgerReason) (ref : Option String)
    (l : ChipLedger)
    → Posts (balance user) l amount (posted l (append now user (some amount) reason ref l))
posted-Posts now user amount reason ref l =
    go (append now user (some amount) reason ref l)
      (append_balances now user (suc user) amount reason ref l (not_next user))
  where
    go :
        (r : Fallible (LedgerEntry × ChipLedger))
        → After
            (λ r.
              (r.1.entries ≡ l.entries ++ (r.0 ∷ []))
              × (balance user r.1 ≡ balance user l +ℤ amount)
              × (balance (suc user) r.1 ≡ balance (suc user) l)
              × ((is_negative amount && is_negative (balance user r.1)) ≡ false))
            r
        → Posts (balance user) l amount (posted l r)
    go (done r) h = h.1
    go (failed e) h = refl

-- The guards of `append`, in its order.
abbrev guards : Bool → Bool → Bool → LedgerEntry × ChipLedger → Fallible (LedgerEntry × ChipLedger)
guards zero_amount broke bad_seed r =
    if zero_amount
    then failed not_a_non_zero_integer
    else if broke
    then failed insufficient_chips
    else if bad_seed
    then failed seed_must_credit
    else done r

recorded_past :
    (zero_amount broke bad_seed : Bool) (r : LedgerEntry × ChipLedger) (l : ChipLedger)
    → (posted l (guards zero_amount broke bad_seed r)).0 ≡ done tt
    → zero_amount ≡ false
recorded_past true broke bad_seed r l e = absurd cc
recorded_past false broke bad_seed r l e = refl

past_guards :
    (zero_amount broke bad_seed : Bool) (r : LedgerEntry × ChipLedger) (l : ChipLedger)
    → zero_amount ≡ false
    → broke ≡ false
    → bad_seed ≡ false
    → (posted l (guards zero_amount broke bad_seed r)).0 ≡ done tt
past_guards zero_amount broke bad_seed r l z b s = rw (z, b, s) refl

whole_debit : (a : ℤ) → is_zero (pos 0 -ℤ a) ≡ false → is_zero a ≡ false
unfolding ◌-ℤ◌
whole_debit (pos n) h = ground arith
whole_debit (negsuc n) h = refl

returned : (b a : ℤ) → (b +ℤ (pos 0 -ℤ a)) +ℤ a ≡ b
returned b a = grind int_laws

no_seed :
    (reason : LedgerReason) (b : Bool) → is_seed reason ≡ false → (is_seed reason && b) ≡ false
no_seed reason b h = rw h refl

false_right : (a b : Bool) → b ≡ false → (a && b) ≡ false
false_right true b h = h
false_right false b h = refl

-- A debit that is recorded was not of zero, and its credit would be recorded after it.
credit_back :
    (now later : String) (user : ℕ) (amount : ℤ) (reason back : LedgerReason)
    (ref other : Option String) (l l' : ChipLedger)
    → IsSolvent l
    → is_seed back ≡ false
    → posted l (append now user (some (pos 0 -ℤ amount)) reason ref l) ≡ (done tt, l')
    → (posted l' (append later user (some amount) back other l')).0 ≡ done tt
unfolding append
credit_back now later user amount reason back ref other l l' solvent not_seed e =
    let debit = pos 0 -ℤ amount in
    let moved : balance user l' ≡ balance user l +ℤ debit =
      subst (Posts (balance user) l debit) e (posted-Posts now user debit reason ref l) in
    let whole =
      recorded_past (is_zero debit) (is_negative debit && is_negative (balance user l +ℤ debit))
        (is_seed reason && is_negative debit) (pushed now user debit reason ref l) l
        (ap (λ r. r.0) e) in
    let restored : balance user l' +ℤ amount ≡ balance user l =
      rw moved (returned (balance user l) amount) in
    past_guards _ _ _ (pushed later user amount back other l') l' (whole_debit amount whole)
      (false_right (is_negative amount) _ (rw restored (solvent user)))
      (no_seed back (is_negative amount) not_seed)

false_left : (n : ℕ) (b : Bool) → (is_negative (pos n) && b) ≡ false
false_left n b = ground arith

credited :
    (now : String) (user chips : ℕ) (reason : LedgerReason) (ref : Option String) (l : ChipLedger)
    → is_seed reason ≡ false
    → 0 < chips
    → (posted l (append now user (some (pos chips)) reason ref l)).0 ≡ done tt
unfolding append
credited now user chips reason ref l not_seed some_chips =
    past_guards _ _ _ (pushed now user (pos chips) reason ref l) l (ground (arith, some_chips))
      (false_left chips _) (no_seed reason (is_negative (pos chips)) not_seed)

posted_sound :
    (l : ChipLedger) (r : Fallible (LedgerEntry × ChipLedger))
    → IsSolvent l
    → After (λ r. IsSolvent r.1) r
    → IsSolvent (posted l r).1
posted_sound l (done r) s h = h
posted_sound l (failed e) s h = s

opened_sound :
    (now : String) (player : ℕ) (name : Option String) (l : ChipLedger)
    → IsSolvent l
    → IsSolvent (open_account now player name l).1
unfolding open_account
opened_sound now player name l s = elim (Bool-cases (is_empty_list (history player l))) [
  | inl y ↦ rw y (
      posted_sound l (opening now player name l) s (
        append-IsSolvent now player (pos 100_000) seed
          (some (elim name [ none ↦ "welcome" | some n ↦ n ])) l s))
  | inr n ↦ rw n s
]

-- The port of a ledger in memory, in which nobody owes chips, is as the server relies on.
pub local_port-IsPort :
    (now : String) (text_of : ℕ → String) → IsPort (local_port now text_of) IsSolvent
unfolding post_buy_in post_add_on post_cash_out
local_port-IsPort now text_of = record {
  balance_tells = λ player coins l e. cc;
  buy_in_posts = λ player table amount l.
      posted-Posts now player (pos 0 -ℤ amount) buy_in (some (text_of table)) l;
  add_on_posts = λ player table amount l.
      posted-Posts now player (pos 0 -ℤ amount) add_on (some (text_of table)) l;
  cash_out_posts =
      λ player table amount l. posted-Posts now player amount cash_out (some (text_of table)) l;
  credits =
      λ player table chips l h. credited now player chips cash_out (some (text_of table)) l refl h;
  opens = opened_sound now;
  refunds = λ player table amount l l' sound e.
      credit_back now now player amount buy_in cash_out _ _ l l' sound refl e;
  refunds_add_on = λ player table amount l l' sound e.
      credit_back now now player amount add_on cash_out _ _ l l' sound refl e;
}
