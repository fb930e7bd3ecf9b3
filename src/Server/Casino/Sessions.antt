-- ===== src/Server/Casino/Sessions.antt =====
-- services/game-server/src/casino/runtime.ts: what a login gives, and what it asks for.
use Prim.Native.String.{String}
use vr_poker.Prelude.{
  ℕ, ◌≡◌, ◌⊎◌, inl, inr, refl, ◌∙◌, true, false, Option, none, some, List, arith, ◌==◌,
  if◌then◌else◌, Bool-cases,
}
use vr_poker.Prelude.Int.{ℤ}
use vr_poker.Prelude.Maps.{lookup_in, lookup_in-write_in}
use vr_poker.Ledger.Entries.{LedgerError, Fallible, done, failed}
use vr_poker.Server.Port.{ChipLedgerPort}
use vr_poker.Server.Ops.{Server, ensure_account}
use vr_poker.Server.Casino.Runtime.{
  Casino, Outcome, Login, gives, throws, wrong_pin, wrong_password, is_kept, set_new, set_password,
  same_password, check_pin, with_account, casino_account, of_ledger, with_coins, logged_in,
  checked_login, login,
}

-- A pin that was in use still is.
abbrev pub StillIn : {L : Type 0} → ℕ → Casino L → Casino L → Type 0
StillIn uid c c' =
    (elim (lookup_in uid c.pins) [ none ↦ false | some p ↦ true ] ≡ false)
    ⊎ (lookup_in uid c'.pins ≡ lookup_in uid c.pins)

-- The password is the one that is kept, where one is.
abbrev pub Knows : {L : Type 0} → ℕ → Option ℕ → Casino L → Type 0
Knows uid passwd c = (lookup_in uid c.passwords ≡ none) ⊎ (lookup_in uid c.passwords ≡ passwd)

-- A login that is given lets the player in with its pin, and has the password that is kept, if one is;
-- one that is not given leaves the pin that the player had, or had the password as well, and the new
-- pin is in use though the ledger failed to tell the balance.
abbrev pub Admitted :
    {L : Type 0}
    → ChipLedgerPort L
    → ℕ
    → Option ℕ
    → ℕ
    → Casino L
    → Outcome Login × Casino L
    → Type 0
Admitted port uid passwd pin c (gives r, c') = (check_pin uid r.pin c' ≡ none) × Knows uid passwd c
Admitted port uid passwd pin c (throws e, c') =
    StillIn uid c c'
    ⊎ ((x : LedgerError) × (port.balance uid c'.server.ledger ≡ failed x)
        × (e ≡ of_ledger x)
        × (check_pin uid pin c' ≡ none)
        × Knows uid passwd c)

self_pin : (pin : ℕ) → (if pin == pin then none else some wrong_pin) ≡ none
self_pin pin = ground arith

right_pin :
    {L : Type 0} (text_of : ℕ → String) (port : ChipLedgerPort L) (uid pin : ℕ) (c : Casino L)
    → check_pin uid pin (logged_in port text_of uid pin c).1 ≡ none
unfolding check_pin
right_pin text_of port uid pin c = rw (check_pin, lookup_in-write_in uid pin c.pins) (self_pin pin)

same_passwords :
    (passwd : Option ℕ) (stored : ℕ) → same_password passwd stored ≡ true → some stored ≡ passwd
same_passwords none stored e = absurd cc
same_passwords (some p) stored e = ground arith

kept_pin :
    (uid pin : ℕ) (pins : List (ℕ × ℕ))
    → (is_kept (lookup_in uid pins) ≡ false)
      ⊎ (lookup_in uid (set_new uid pin pins) ≡ lookup_in uid pins)
kept_pin uid pin pins = elim (Bool-cases (is_kept (lookup_in uid pins))) [
  | inl y ↦ inr (rw y refl)
  | inr n ↦ inl n
]

module _ {L : Type 0} (port : ChipLedgerPort L) (text_of : ℕ → String) (uid : ℕ) (passwd : Option ℕ)
    (fresh pin : ℕ) (c : Casino L) where
  with_pin :
      (c' : Casino L)
      → Knows uid passwd c
      → Admitted port uid passwd pin c (logged_in port text_of uid pin c')
  with_pin c' k = told (port.balance uid c'.server.ledger) refl
    where
      told :
          (r : Fallible ℤ)
          → port.balance uid c'.server.ledger ≡ r
          → Admitted port uid passwd pin c
              (with_coins port text_of uid pin c' r, (logged_in port text_of uid pin c').1)
      told (done coins) e = (right_pin text_of port uid pin c', k)
      told (failed x) e = inr (x, e, refl, right_pin text_of port uid pin c', k)

  found :
      (o : Option ℕ)
      → lookup_in uid c.passwords ≡ o
      → (c' : Casino L) → StillIn uid c c'
      → Admitted port uid passwd pin c (elim o [
        | some stored ↦
            if same_password passwd stored
            then logged_in port text_of uid pin c'
            else (throws wrong_password, c')
        | none ↦
            logged_in port text_of uid pin
              (record c' { passwords = set_password uid passwd c'.passwords })
      ])
  found none e c' h = with_pin _ (inl e)
  found (some stored) e c' h = elim (Bool-cases (same_password passwd stored)) [
    | inl y ↦ rw y (with_pin c' (inr (e ∙ same_passwords passwd stored y)))
    | inr n ↦ rw n (inl h)
  ]

  opened :
      (r : Fallible (Unit {0}) × Server L)
      → Admitted port uid passwd pin c
          (checked_login port text_of uid passwd pin (with_account uid none fresh c r))
  opened (failed e, s) = inl (inr refl)
  opened (done a, s) =
      found (lookup_in uid c.passwords) refl
        (record c { server = s; pins = set_new uid fresh c.pins }) (kept_pin uid fresh c.pins)

  -- A login that is given lets the player in with the pin that it gives, and had the password that is
  -- kept for the player, where one is. A login that is refused leaves the pin that was in use, but for
  -- one with that password for which the ledger then fails to tell the balance: its pin is in use.
  pub login-Admitted : Admitted port uid passwd pin c (login port text_of uid passwd fresh pin c)
  unfolding login casino_account
  login-Admitted = opened (ensure_account port uid (text_of uid) c.server)
