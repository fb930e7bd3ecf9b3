-- ===== src/Server/Casino/Own.antt =====
-- services/game-server/src/casino: whose chips a call of a casino client moves.
use Prim.Native.String.{String}
use vr_poker.Prelude.{
  ℕ, suc, ◌≡◌, inl, inr, refl, ap, ◌∙◌, Bool, true, false, Option, none, some, ◌==◌, some_of,
  Bool-cases, Option-cases, if◌then◌else◌, ltb,
}
use vr_poker.Prelude.Int.{ℤ}
use vr_poker.Prelude.Maps.{lookup_in, write_in}
use vr_poker.Ledger.Entries.{Fallible, done, failed, Fallible-cases}
use vr_poker.Table.State.{Table}
use vr_poker.Table.Snapshot.{snapshot}
use vr_poker.Server.Port.{ChipLedgerPort}
use vr_poker.Server.Ops.{
  Server, Reply, answered, refused, sit_at_table, leave_table, ensure_account,
}
use vr_poker.Server.Others.{
  KeepsOthers, ensure_account-other, sit_at_table-other, leave_table-other,
}
use vr_poker.Server.Casino.Runtime.{
  Casino, leave_room, is_player, with_account, outcome_of, after_sit, after_leave, casino_account,
  fast_signup, signup, checked_login, login, casino_sit, leave_seat, is_kept, same_password,
  unready,
}
use vr_poker.Server.Casino.Rpc.{Ret, ret_of, seat_buy_in, take_seat, gone, leave_call}
use vr_poker.Server.Casino.Kept.{notified, ret_ledger}

module _ {L : Type 0} (port : ChipLedgerPort L) (laws : KeepsOthers port) (player other : ℕ)
    (apart : (player == other) ≡ false) where
  abbrev pub KeptFrom : Casino L → Casino L → Type 0
  KeptFrom c c' = port.holds other c'.server.ledger ≡ port.holds other c.server.ledger

  accounted :
      (password : Option ℕ) (pin : ℕ) (c : Casino L) (r : Fallible (Unit {0}) × Server L)
      → (with_account player password pin c r).1.server.ledger ≡ r.1.ledger
  accounted password pin c (failed e, s) = refl
  accounted password pin c (done a, s) = refl

  pub casino_account-other :
      (name : String) (password : Option ℕ) (pin : ℕ) (c : Casino L)
      → KeptFrom c (casino_account port player name password pin c).1
  unfolding casino_account
  casino_account-other name password pin c =
      ap (port.holds other) (accounted password pin c (ensure_account port player name c.server))
      ∙ ensure_account-other port laws player other apart name c.server

  pub outcome_ledger :
      {A : Type 0} (a : A) (r : Fallible (Unit {0}) × Casino L)
      → (outcome_of a r).1.server.ledger ≡ r.1.server.ledger
  outcome_ledger a (done u, c) = refl
  outcome_ledger a (failed e, c) = refl

  pub signup-other :
      (length_of : ℕ → ℕ) (text_of : ℕ → String) (passwd : Option ℕ) (name : String) (pin : ℕ)
      (c : Casino L)
      → KeptFrom c (signup port length_of text_of player passwd name pin c).1
  unfolding signup
  signup-other length_of text_of passwd name pin c = elim (Bool-cases (ltb (length_of player) 3)) [
    | inl y ↦ rw (signup, y) refl
    | inr n ↦ elim (Bool-cases (is_kept (lookup_in player c.passwords))) [
      | inl y ↦ rw (signup, n, y) refl
      | inr m ↦
          rw (signup, n, m)
            (ap (port.holds other) (outcome_ledger tt _) ∙ casino_account-other _ passwd pin c)
    ]
  ]

  checked_ledger :
      (text_of : ℕ → String) (passwd : Option ℕ) (pin : ℕ) (r : Fallible (Unit {0}) × Casino L)
      → (checked_login port text_of player passwd pin r).1.server.ledger ≡ r.1.server.ledger
  checked_ledger text_of passwd pin (failed e, c) = refl
  checked_ledger text_of passwd pin (done a, c) =
      elim (Option-cases (lookup_in player c.passwords)) [
        | inl e ↦ rw (e, checked_login) refl
        | inr (stored, e) ↦ elim (Bool-cases (same_password passwd stored)) [
          | inl y ↦ rw (e, y, checked_login) refl
          | inr n ↦ rw (e, n, checked_login) refl
        ]
      ]

  pub login-other :
      (text_of : ℕ → String) (passwd : Option ℕ) (fresh pin : ℕ) (c : Casino L)
      → KeptFrom c (login port text_of player passwd fresh pin c).1
  unfolding login
  login-other text_of passwd fresh pin c =
      ap (port.holds other) (
        checked_ledger text_of passwd pin
          (casino_account port player (text_of player) none fresh c))
      ∙ casino_account-other (text_of player) none fresh c

  sat_ledger :
      (id : ℕ) (c : Casino L) (r : Reply Table × Server L)
      → (after_sit id c r).1.server.ledger ≡ r.1.ledger
  sat_ledger id c (refused e, s) = refl
  sat_ledger id c (answered t, s) = notified id (record c { server = s })

  casino_sit-other :
      (id : ℕ) (name : String) (buy : ℤ) (seat : Option ℤ) (c : Casino L)
      → KeptFrom c (casino_sit port id player name buy seat c).1
  unfolding casino_sit
  casino_sit-other id name buy seat c =
      ap (port.holds other) (
        sat_ledger id (record c { rooms = write_in player id c.rooms })
          (sit_at_table port id player name buy seat c.server))
      ∙ sit_at_table-other port laws player other apart id name buy seat c.server

  pub take_seat-other :
      (text_of : ℕ → String) (seat : Option ℤ) (c : Casino L)
      → KeptFrom c (take_seat port text_of player seat c).1
  unfolding take_seat
  take_seat-other text_of seat c = elim (Option-cases (lookup_in player c.rooms)) [
    | inl e ↦ rw (take_seat, e) refl
    | inr (id, e) ↦ elim (Option-cases (lookup_in id c.server.tables)) [
      | inl f ↦ rw (take_seat, e, f) refl
      | inr (t, f) ↦ elim (Fallible-cases (port.balance player c.server.ledger)) [
        | inl (x, d) ↦ rw (take_seat, e, f, d) refl
        | inr (coins, d) ↦ elim (Option-cases (seat_buy_in t.config coins)) [
          | inl g ↦ rw (take_seat, e, f, d, g) refl
          | inr (buy, g) ↦
              rw (take_seat, e, f, d, g)
                (ap (port.holds other) (ret_ledger _) ∙ casino_sit-other id _ buy seat c)
        ]
      ]
    ]
  ]

  left_ledger :
      (id : ℕ) (c : Casino L) (r : Reply ℕ × Server L)
      → (after_leave id c r).1.server.ledger ≡ r.1.ledger
  left_ledger id c (refused e, s) = refl
  left_ledger id c (answered chips, s) = notified id (record c { server = s })

  leave_seat-other : (id : ℕ) (c : Casino L) → KeptFrom c (leave_seat port id player c).1
  unfolding leave_seat
  leave_seat-other id c =
      ap (port.holds other) (
        left_ledger id (record c { ready = unready id player c.ready })
          (leave_table port id player c.server))
      ∙ leave_table-other port laws player other apart id c.server

  out_of_room : (out : Bool) (c : Casino L) → KeptFrom c (if out then leave_room player c else c)
  unfolding leave_room
  out_of_room true c = refl
  out_of_room false c = refl

  gone_other :
      {A : Type 0} (text_of : ℕ → String) (out : Bool) (r : Ret L A)
      → KeptFrom r.1 (gone port text_of out player r).1
  gone_other text_of out (inl e, c) = refl
  gone_other text_of out (inr a, c) = out_of_room out c

  pub leave_call-other :
      (text_of : ℕ → String) (out : Bool) (c : Casino L)
      → KeptFrom c (leave_call port text_of out player c).1
  unfolding leave_call
  leave_call-other text_of out c = elim (Option-cases (lookup_in player c.rooms)) [
    | inl e ↦ rw (leave_call, e) refl
    | inr (id, e) ↦ elim (Option-cases (lookup_in id c.server.tables)) [
      | inl f ↦ rw (leave_call, e, f) refl
      | inr (t, f) ↦ elim (Bool-cases (some_of (is_player player) (snapshot none t).players)) [
        | inl y ↦
            rw (leave_call, e, f, y)
              (gone_other text_of out (ret_of (leave_seat port id player c))
                ∙ ap (port.holds other) (ret_ledger (leave_seat port id player c))
                ∙ leave_seat-other id c)
        | inr n ↦ rw (leave_call, e, f, n) (out_of_room out c)
      ]
    ]
  ]

pub fast_signup-other :
    {L : Type 0} (port : ChipLedgerPort L)
    → KeepsOthers port
    → (uid_of : ℕ → ℕ) (text_of : ℕ → String) (passwd pin other : ℕ) (c : Casino L)
    → (uid_of (suc c.user_seq) == other) ≡ false
    → port.holds other (fast_signup port uid_of text_of passwd pin c).1.server.ledger
      ≡ port.holds other c.server.ledger
unfolding fast_signup
fast_signup-other port laws uid_of text_of passwd pin other c n =
    let uid = uid_of (suc c.user_seq) in
    let user : ℕ × ℕ = (uid, passwd) in
    ap (port.holds other) (outcome_ledger port laws uid other n user _)
    ∙ casino_account-other port laws uid other n (text_of uid) (some passwd) pin
        (record c { user_seq = suc c.user_seq })
