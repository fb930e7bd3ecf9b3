-- ===== src/Server/Casino/Access.antt =====
-- services/game-server/src/casino/rpc.ts: whom a call acts for.
use Prim.Native.String.{String}
use vr_poker.Prelude.{
  ℕ, ◌≡◌, ◌⊎◌, inl, inr, refl, Bool, true, false, Option, none, some, ◌==◌, Bool-cases,
  Option-cases,
}
use vr_poker.Prelude.Maps.{lookup_in}
use vr_poker.Server.Port.{ChipLedgerPort}
use vr_poker.Server.Casino.Runtime.{Casino, wrong_pin, check_pin}
use vr_poker.Server.Casino.Calls.{
  Call, fastsignup, signs_up, logs_in, logs_out, RpcReq, Session, RpcRet, Done, uid_for, pin_for,
  with_session, returned,
}
use vr_poker.Server.Casino.Dispatch.{dispatch, handle_rpc}

-- The calls that ask for no pin.
abbrev pub opens_session : Call → Bool
opens_session fastsignup = true
opens_session (signs_up uid passwd name) = true
opens_session (logs_in uid passwd) = true
opens_session _ = false

-- The call comes with the pin of its user, itself or from its session; or it is answered with the
-- status 403 and has changed nothing.
abbrev pub Checked : {L : Type 0} → RpcReq → Option Session → Casino L → RpcRet × Casino L → Type 0
Checked req session c (r, c') =
    ((uid : ℕ) × (pin : ℕ) × (uid_for req session ≡ some uid)
      × (pin_for req session ≡ some pin)
      × (check_pin uid pin c ≡ none))
    ⊎ ((c' ≡ c) × (r.err ≡ 403))

module _ {L : Type 0} where
  pin_errors :
      (uid pin : ℕ) (c : Casino L)
      → (check_pin uid pin c ≡ none) ⊎ (check_pin uid pin c ≡ some wrong_pin)
  unfolding check_pin
  pin_errors uid pin c = elim (Option-cases (lookup_in uid c.pins)) [
    | inl e ↦ inr (rw (check_pin, e) refl)
    | inr (p, e) ↦ elim (Bool-cases (p == pin)) [
      | inl y ↦ inl (rw (check_pin, e, y) refl)
      | inr n ↦ inr (rw (check_pin, e, n) refl)
    ]
  ]

  session-Checked :
      (req : RpcReq) (session : Option Session) (c : Casino L) (k : ℕ → Done L)
      → Checked req session c
          (returned req.seq (with_session (uid_for req session) (pin_for req session) c k))
  session-Checked req session c k = elim (Option-cases (uid_for req session)) [
    | inl e ↦ inr (rw e (refl, refl))
    | inr (uid, e) ↦ elim (Option-cases (pin_for req session)) [
      | inl f ↦ inr (rw (e, f) (refl, refl))
      | inr (pin, f) ↦ elim (pin_errors uid pin c) [
        | inl y ↦ inl (uid, pin, e, f, y)
        | inr n ↦ inr (rw (e, f, n) (refl, refl))
      ]
    ]
  ]

module _ {L : Type 0} (port : ChipLedgerPort L) (text_of name_of : ℕ → String) (room : ℕ)
    (uid_of length_of : ℕ → ℕ) (passwd fresh pin : ℕ) (session : Option Session)
    (c : Casino L) where
  -- A call that is no sign-up and no login comes with the id of a user and the pin that was given to
  -- it, itself or from the session of its socket; or it is answered with the status 403 and changes
  -- nothing.
  pub handle_rpc-Checked :
      (req : RpcReq)
      → opens_session req.call ≡ false
      → Checked req session c
          (handle_rpc port text_of name_of room uid_of length_of passwd fresh pin req session c)
  unfolding handle_rpc dispatch
  handle_rpc-Checked req h = go req.call refl
    where
      go :
          (call : Call)
          → req.call ≡ call
          → Checked req session c
              (handle_rpc port text_of name_of room uid_of length_of passwd fresh pin req session c)
      go fastsignup e = absurd (let h' = rw e at h in cc)
      go (signs_up uid p name) e = absurd (let h' = rw e at h in cc)
      go (logs_in uid p) e = absurd (let h' = rw e at h in cc)
      go logs_out e = rw (e, handle_rpc, dispatch) (session-Checked req session c _)
      go call e = rw (e, handle_rpc, dispatch) (session-Checked req session c _)
