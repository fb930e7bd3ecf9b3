-- ===== src/Server/Casino/Balances.antt =====
-- services/game-server/src/casino: whose chips a whole call moves.
use Prim.Native.String.{String}
use vr_poker.Prelude.{
  ℕ, suc, ◌≡◌, ◌⊎◌, inl, inr, refl, ap, ◌∙◌, true, false, Option, none, some, ◌==◌, arith,
  Bool-cases, Option-cases,
}
use vr_poker.Prelude.Maps.{lookup_in}
use vr_poker.Server.Port.{ChipLedgerPort}
use vr_poker.Server.Others.{KeepsOthers}
use vr_poker.Server.Casino.Map.{room_details}
use vr_poker.Server.Casino.Runtime.{
  Casino, CasinoError, check_pin, enter_room, mark_ready, fast_signup, signup, login,
}
use vr_poker.Server.Casino.Rpc.{ret_of, take_seat, leave_call}
use vr_poker.Server.Casino.Calls.{
  Call, fastsignup, signs_up, logs_in, logs_out, games, rooms, enters, looks, takes_seat, unseats,
  leaves, is_ready, plays, talks, RpcReq, Session, Done, answer, looked, prompt, signed_up, logged,
  in_room, uid_for, pin_for, with_session, when_checked, returned,
}
use vr_poker.Server.Casino.Dispatch.{logged_dispatch, dispatch, handle_rpc}
use vr_poker.Server.Casino.Kept.{
  entered_ledger, mark_ready-ledger, answer_ledger, ret_ledger, viewed_ledger, room_ledger,
  in_room_ledger, play_call-ledger,
}
use vr_poker.Server.Casino.Own.{
  signup-other, fast_signup-other, login-other, take_seat-other, leave_call-other,
}

-- the player whom a call is for, where `next` is the id of the next new user
abbrev pub acts_for : ℕ → Option Session → RpcReq → Option ℕ
acts_for next session req = elim req.call [
  | fastsignup ↦ some next
  | signs_up uid p name ↦ some uid
  | logs_in uid p ↦ some uid
  | asked ↦ uid_for req session
]

module _ {L : Type 0} (port : ChipLedgerPort L) (laws : KeepsOthers port)
    (text_of name_of : ℕ → String) (room other : ℕ) where
  logged_dispatch-other :
      (uid : ℕ) (call : Call) (c : Casino L)
      → (uid == other) ≡ false
      → port.holds other (logged_dispatch port text_of name_of room uid call c).1.server.ledger
        ≡ port.holds other c.server.ledger
  unfolding logged_dispatch
  logged_dispatch-other uid games c n = refl
  logged_dispatch-other uid rooms c n = refl
  logged_dispatch-other uid (enters none) c n =
      ap (port.holds other)
        (room_ledger uid room (enter_room uid room c) ∙ entered_ledger uid room c)
  logged_dispatch-other uid (enters (some id)) c n =
      ap (port.holds other) (room_ledger uid id (enter_room uid id c) ∙ entered_ledger uid id c)
  logged_dispatch-other uid looks c n = ap (port.holds other) (
      in_room_ledger uid c _
        (λ id. viewed_ledger (λ snap. looked (room_details (some uid) snap)) id uid c))
  logged_dispatch-other uid (takes_seat seat) c n = elim (Option-cases (lookup_in uid c.rooms)) [
    | inl e ↦ rw (e, in_room) refl
    | inr (id, e) ↦
        rw (e, in_room)
          (ap (port.holds other) (answer_ledger _ (take_seat port text_of uid seat c))
            ∙ take_seat-other port laws uid other n text_of seat c)
  ]
  logged_dispatch-other uid unseats c n =
      ap (port.holds other) (answer_ledger _ (leave_call port text_of false uid c))
      ∙ leave_call-other port laws uid other n text_of false c
  logged_dispatch-other uid leaves c n =
      ap (port.holds other) (answer_ledger _ (leave_call port text_of true uid c))
      ∙ leave_call-other port laws uid other n text_of true c
  logged_dispatch-other uid is_ready c n = ap (port.holds other) (
      in_room_ledger uid c _
        (λ id. answer_ledger _ _ ∙ ret_ledger (mark_ready id uid c) ∙ mark_ready-ledger id uid c))
  logged_dispatch-other uid (plays a v) c n = ap (port.holds other) (play_call-ledger uid a v c)
  logged_dispatch-other uid talks c n = refl
  logged_dispatch-other uid asked c n = refl

  -- The balance is kept, or the call is for the player.
  abbrev KeptOrFor : Option ℕ → Casino L → Casino L → Type 0
  KeptOrFor who c c' =
      (port.holds other c'.server.ledger ≡ port.holds other c.server.ledger) ⊎ (who ≡ some other)

  kept_or_for :
      (player : ℕ) (c c' : Casino L)
      → ((player == other) ≡ false
          → port.holds other c'.server.ledger ≡ port.holds other c.server.ledger)
      → KeptOrFor (some player) c c'
  kept_or_for player c c' h = elim (Bool-cases (player == other)) [
    | inl y ↦ inr (ap some (let same : player ≡ other = ground (arith, y) in same))
    | inr n ↦ inl (h n)
  ]

  session_kept :
      (who pin : Option ℕ) (c : Casino L) (k : ℕ → Done L)
      → ((uid : ℕ)
          → (uid == other) ≡ false
          → port.holds other (k uid).1.server.ledger ≡ port.holds other c.server.ledger)
      → KeptOrFor who c (with_session who pin c k).1
  session_kept none pin c k h = inl refl
  session_kept (some uid) none c k h = inl refl
  session_kept (some uid) (some pin) c k h = go (check_pin uid pin c)
    where
      go : (e : Option CasinoError) → KeptOrFor (some uid) c (when_checked e (k uid) c).1
      go none = kept_or_for uid c (k uid).1 (h uid)
      go (some e) = inl refl

  returned_ledger : (seq : ℕ) (r : Done L) → (returned seq r).1.server.ledger ≡ r.1.server.ledger
  returned_ledger seq (inl e, c) = refl
  returned_ledger seq (inr a, c) = refl

  module _ (uid_of length_of : ℕ → ℕ) (passwd fresh pin : ℕ) (session : Option Session)
      (c : Casino L) where
    dispatch-kept :
        (req : RpcReq)
        → KeptOrFor
            (acts_for (uid_of (suc c.user_seq)) session req)
            c
            (dispatch port text_of name_of room uid_of length_of passwd fresh pin req session c).1
    unfolding dispatch
    dispatch-kept req = go req.call refl
      where
        go :
            (call : Call)
            → req.call ≡ call
            → KeptOrFor
                (acts_for (uid_of (suc c.user_seq)) session req)
                c
                (dispatch port text_of name_of room uid_of length_of passwd fresh pin req session
                  c).1
        go fastsignup e =
            rw (e, dispatch)
              (kept_or_for (uid_of (suc c.user_seq)) c
                (answer (λ u. signed_up u.0 (some u.1))
                  (ret_of (fast_signup port uid_of text_of passwd fresh c))).1
                (λ n.
                  ap (port.holds other) (
                    answer_ledger _ _ ∙ ret_ledger (fast_signup port uid_of text_of passwd fresh c))
                  ∙ fast_signup-other port laws uid_of text_of passwd fresh other c n))
        go (signs_up uid p name) e =
            rw (e, dispatch)
              (kept_or_for uid c
                (answer (λ u. signed_up uid p)
                  (ret_of (signup port length_of text_of uid p name fresh c))).1
                (λ n.
                  ap (port.holds other) (
                    answer_ledger _ _
                    ∙ ret_ledger (signup port length_of text_of uid p name fresh c))
                  ∙ signup-other port laws uid other n length_of text_of p name fresh c))
        go (logs_in uid p) e =
            rw (e, dispatch)
              (kept_or_for uid c
                (answer (logged uid) (ret_of (login port text_of uid p fresh pin c))).1
                (λ n.
                  ap (port.holds other)
                    (answer_ledger _ _ ∙ ret_ledger (login port text_of uid p fresh pin c))
                  ∙ login-other port laws uid other n text_of p fresh pin c))
        go logs_out e =
            rw (e, dispatch)
              (session_kept (uid_for req session) (pin_for req session) c (λ uid. (inr prompt, c))
                (λ uid n. refl))
        go asked e =
            rw (e, dispatch)
              (session_kept (uid_for req session) (pin_for req session) c
                (λ uid. logged_dispatch port text_of name_of room uid asked c)
                (λ uid n. logged_dispatch-other uid asked c n))

    -- Over a ledger that keeps to its player: a call of a casino client leaves the balance of every
    -- player but the one whom it is for, which is the new or named user of a sign-up or a login, and
    -- the user of the session of every other call.
    pub handle_rpc-balances :
        (req : RpcReq)
        → (port.holds other
              (handle_rpc port text_of name_of room uid_of length_of passwd fresh pin req session
                c).1.server.ledger
            ≡ port.holds other c.server.ledger)
          ⊎ (acts_for (uid_of (suc c.user_seq)) session req ≡ some other)
    unfolding handle_rpc
    handle_rpc-balances req =
        let r =
          dispatch port text_of name_of room uid_of length_of passwd fresh pin req session c in
        elim (dispatch-kept req) [
          | inl kept ↦ inl (ap (port.holds other) (returned_ledger req.seq r) ∙ kept)
          | inr own ↦ inr own
        ]
